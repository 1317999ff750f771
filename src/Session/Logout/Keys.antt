-- ===== src/Session/Logout/Keys.antt =====
-- The keys of `juju_models` in n2vc/n2vc_juju_conn.py, which `_juju_logout` leaves.
use n2vc.Prelude.{
  ◌≡◌, refl, Bool, true, false, Option, none, some, List, [], ◌∷◌, arith, if◌then◌else◌, map, inl,
  inr, Bool-cases,
}
use n2vc.Prelude.Exec.{Result, ok, err, pure, handled, continue, ◌catch◌}
use n2vc.Exception.{Exception}
use n2vc.Text.{Text, text_eq, text_eq_iff}
use n2vc.Libjuju.Connection.{member}
use n2vc.Session.{Session, Task, lookup, get_model, wait_or_list}
use n2vc.Session.Logout.{
  set_none, disconnect_value, disconnect_model, disconnect_models, left, logout,
}

-- The value under a key, after the value under a key is set to None.
lookup-set_none :
    (name changed : Text) (entries : List (Text × Bool)) (b : Bool)
    → lookup name entries ≡ some b
    → lookup name (set_none changed entries) ≡ some (if text_eq changed name then false else b)
unfolding lookup set_none
lookup-set_none name changed [] b h = absurd (ground arith)
lookup-set_none name changed ((n, v) ∷ rest) b h = elim (Bool-cases (text_eq name n)) [
  | inl e ↦
      let same : name ≡ n = (text_eq_iff name n).0 e in
      rw (← same) (ground (arith, h, e, (text_eq_iff name name).1 refl))
  | inr d ↦ ground (arith, h, d, lookup-set_none name changed rest b)
]

text_eq_sym : (s t : Text) → text_eq s t ≡ text_eq t s
unfolding text_eq
text_eq_sym [] [] = refl
text_eq_sym [] (y ∷ t) = refl
text_eq_sym (x ∷ s) [] = refl
text_eq_sym (x ∷ s) (y ∷ t) = ground (arith, text_eq_sym s t)

if_true : {A : Type 0} (b : Bool) (x y : A) → b ≡ true → (if b then x else y) ≡ x
if_true true x y h = refl
if_true false x y h = absurd (ground arith)

-- Where the models answer their disconnection.
module _ (returns : Text → Bool) (all_return : (name : Text) → returns name ≡ true)
    (name : Text) where
  -- A key that the session has.
  abbrev HasKey : Bool → Session → Type 0
  HasKey b s = lookup name s.juju_models ≡ some b

  one_disconnected :
      (other_name : Text) (s : Session) (b : Bool)
      → HasKey b s
      → HasKey
          (if text_eq other_name name then false else b)
          ((disconnect_model returns other_name catch (λ e. pure tt)) s).1
  unfolding disconnect_model
  one_disconnected other_name s b h = go (lookup other_name s.juju_models) refl
    where
      unchanged :
          (text_eq other_name name ≡ true → b ≡ false)
          → HasKey (if text_eq other_name name then false else b) s
      unchanged k = ground (arith, h, k)

      value :
          (o : Option Bool)
          → lookup other_name s.juju_models ≡ o
          → text_eq other_name name ≡ true
          → some b ≡ o
      value o e k = let same : other_name ≡ name = (text_eq_iff other_name name).0 k in cc

      go :
          (o : Option Bool)
          → lookup other_name s.juju_models ≡ o
          → HasKey
              (if text_eq other_name name then false else b)
              (handled (disconnect_value returns other_name o s) (λ e. pure tt)).1
      go none e = unchanged (λ k. absurd (ground (arith, value none e k)))
      go (some false) e = unchanged (λ k. ground (arith, value (some false) e k))
      go (some true) e =
          rw (all_return other_name) (lookup-set_none name other_name s.juju_models b h)

  all_disconnected :
      (names : List Text) (s : Session) (b : Bool)
      → HasKey b s
      → (disconnect_models returns names s).0 ≡ ok tt
        × HasKey (if member name names then false else b) (disconnect_models returns names s).1
  unfolding disconnect_models member
  all_disconnected [] s b h = (refl, h)
  all_disconnected (n ∷ names) s b h =
      go (disconnect_model returns n s) (one_disconnected n s b h)
        (λ t k. all_disconnected names t (if text_eq n name then false else b) k)
    where
      both :
          (x y z : Bool)
          → x ≡ y
          → (if (if x then true else z) then false else b)
            ≡ (if z then false else if y then false else b)
      both x y z e = ground (arith, e)

      finish :
          (t : Session)
          → (disconnect_models returns names t).0 ≡ ok tt
            × HasKey
                (if member name names then false else if text_eq n name then false else b)
                (disconnect_models returns names t).1
          → (disconnect_models returns names t).0 ≡ ok tt
            × HasKey
                (if (if text_eq name n then true else member name names) then false else b)
                (disconnect_models returns names t).1
      finish t (done, key) = (done, rw (both _ _ (member name names) (text_eq_sym name n)) key)

      go :
          (r : Result Exception (Unit {0}) × Session)
          → HasKey (if text_eq n name then false else b) (handled r (λ e. pure tt)).1
          → ((t : Session)
              → HasKey (if text_eq n name then false else b) t
              → (disconnect_models returns names t).0 ≡ ok tt
                × HasKey
                    (if member name names then false else if text_eq n name then false else b)
                    (disconnect_models returns names t).1)
          → (continue (handled r (λ e. pure tt)) (λ _. disconnect_models returns names)).0 ≡ ok tt
            × HasKey
                (if (if text_eq name n then true else member name names) then false else b)
                (continue (handled r (λ e. pure tt)) (λ _. disconnect_models returns names)).1
      go (ok a, t) k rest = finish t (rest t k)
      go (err x, t) k rest = finish t (rest t k)

  member-keys :
      (entries : List (Text × Bool)) (b : Bool)
      → lookup name entries ≡ some b
      → member name (map (λ entry. entry.0) entries) ≡ true
  unfolding lookup member
  member-keys [] b h = absurd (ground arith)
  member-keys ((n, v) ∷ rest) b h = ground (arith, h, member-keys rest b)

  got_none :
      (u : Session) (o : Option Bool)
      → o ≡ some false
      → elim o [ some b ↦ (u, Task.model_got name b) | none ↦ wait_or_list name u ]
        ≡ (u, Task.model_got name false)
  got_none u none h = absurd (ground arith)
  got_none u (some b) h = ground (arith, h)

  -- Where the models and the controller answer their disconnection, a session that is authenticated
  -- is not after `_juju_logout`. But a model that it had is None from then on: in every later session
  -- with these models, `_juju_get_model` returns None for it.
  pub logout_keeps_keys :
      (s later : Session) (b : Bool)
      → s.authenticated ≡ true
      → lookup name s.juju_models ≡ some b
      → let (r, t) = logout returns true s in
        (r ≡ ok true)
        × (t.authenticated ≡ false)
        × (get_model name (record later { juju_models = t.juju_models })
            ≡ (record later { juju_models = t.juju_models }, Task.model_got name false))
  unfolding logout left get_model
  logout_keeps_keys s later b a h = rw (if_true s.authenticated _ _ a) (
      go (disconnect_models returns (map (λ entry. entry.0) s.juju_models) s)
        (all_disconnected (map (λ entry. entry.0) s.juju_models) s b h))
    where
      go :
          (r : Result Exception (Unit {0}) × Session)
          → r.0 ≡ ok tt
            × HasKey (if member name (map (λ entry. entry.0) s.juju_models) then false else b) r.1
          → ((continue r (λ _. left returns true)).0 ≡ ok true)
            × ((continue r (λ _. left returns true)).1.authenticated ≡ false)
            × (get_model name (record later {
              juju_models = (continue r (λ _. left returns true)).1.juju_models;
            })
                ≡ (
                  record later {
                    juju_models = (continue r (λ _. left returns true)).1.juju_models;
                  },
                  Task.model_got name false,
                ))
      go (ok x, t) (e, k) =
          (refl, refl, got_none (record later { juju_models = t.juju_models }) _ key)
        where
          key : HasKey false t
          key = ground (arith, k, member-keys s.juju_models b h)
      go (err x, t) (e, k) = absurd (ground arith)
