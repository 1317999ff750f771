-- ===== src/Session/Once.antt =====
-- The models that the tasks of n2vc/n2vc_juju_conn.py add to the controller.
use n2vc.Prelude.{
  ℕ, ◌⊎◌, ◌≢◌, ◌≡◌, refl, sym, ap, ◌∙◌, Bool, true, false, Option, none, some, List, [], ◌∷◌, arith,
  ◌==◌, ==_iff, if◌then◌else◌, inl, inr, Bool-cases,
}
use n2vc.Text.{Text, text_eq, text_eq_iff}
use n2vc.Libjuju.Connection.{member}
use n2vc.Libjuju.Member.{member_self}
use n2vc.Session.{
  Task, Session, System, Step, Reach, lookup, login, login_again, connected, get_model, listed,
  after_add, after_get, resume, moved, start, wait_or_list, here, next,
}
use n2vc.Session.Exclusion.{creates, IsExclusive, Reach-IsExclusive, start-IsExclusive}

-- No name stands twice in the list.
abbrev pub IsDistinct : List Text → Type 0
IsDistinct [] = Unit
IsDistinct (m ∷ ms) = (member m ms ≡ false) × IsDistinct ms

-- What the step of one task does to the models of the controller, and to those that were added: it
-- adds one that the task was about to add, or none.
data Grows (t : Task) (s : Session) (r : Session × Task) : Type 0 where
  none_added :
      r.0.remote ≡ s.remote
      → r.0.added ≡ s.added
      → ((name : Text) → r.1 ≡ Task.model_add name → member name s.remote ≡ false)
      → Grows t s r
  one_added :
      (name : Text)
      → t ≡ Task.model_add name
      → r.0.remote ≡ name ∷ s.remote
      → r.0.added ≡ name ∷ s.added
      → creates r.1 ≡ false
      → Grows t s r

-- The models of `remote` are there from the beginning. A model that is added was not one of them, and
-- none is added twice.
pub record IsOnce (remote : List Text) (s : System) : Type 0 where
  pub adding :
      (i : ℕ) (name : Text) → s.tasks i ≡ Task.model_add name → member name s.session.remote ≡ false
  pub known :
      (name : Text) → member name s.session.added ≡ true → member name s.session.remote ≡ true
  pub old : (name : Text) → member name remote ≡ true → member name s.session.remote ≡ true
  pub new : (name : Text) → member name s.session.added ≡ true → member name remote ≡ false
  pub distinct : IsDistinct s.session.added

module _ (t : Task) (s : Session) where
  stays-Grows :
      (s' : Session) (t' : Task)
      → s'.remote ≡ s.remote
      → s'.added ≡ s.added
      → ((name : Text) → t' ≢ Task.model_add name)
      → Grows t s (s', t')
  stays-Grows s' t' e e' n = none_added e e' (λ name q. absurd (n name q))

  if-Grows :
      (b : Bool) (r r' : Session × Task)
      → (b ≡ true → Grows t s r)
      → (b ≡ false → Grows t s r')
      → Grows t s (if b then r else r')
  if-Grows true r r' h k = h refl
  if-Grows false r r' h k = k refl

  login_again-Grows : Grows t s (login_again s)
  unfolding login_again
  login_again-Grows =
      if-Grows s.connecting _ _ (λ b. stays-Grows _ _ refl refl (λ n q. ground arith))
        (λ b.
          if-Grows s.authenticated _ _ (λ b. stays-Grows _ _ refl refl (λ n q. ground arith))
            (λ b. stays-Grows _ _ refl refl (λ n q. ground arith)))

  login-Grows : Grows t s (login s)
  unfolding login
  login-Grows =
      if-Grows s.authenticated _ _ (λ b. stays-Grows _ _ refl refl (λ n q. ground arith))
        (λ b. login_again-Grows)

  get_model-Grows : (name : Text) → Grows t s (get_model name s)
  unfolding get_model
  get_model-Grows name = go (lookup name s.juju_models)
    where
      go :
          (o : Option Bool)
          → Grows t s (elim o [ some b ↦ (s, Task.model_got name b) | none ↦ wait_or_list name s ])
      go (some b) = stays-Grows _ _ refl refl (λ n q. ground arith)
      go none =
          if-Grows s.creating_model _ _ (λ b. stays-Grows _ _ refl refl (λ n q. ground arith))
            (λ b. stays-Grows _ _ refl refl (λ n q. ground arith))

resume-Grows :
    (t : Task) (s : Session) (returned created : Bool) → Grows t s (resume t returned created s)
unfolding resume connected listed after_add after_get
resume-Grows Task.login_wait s r c = login_again-Grows _ s
resume-Grows Task.login_connect s true c = stays-Grows _ _ _ _ refl refl (λ n q. ground arith)
resume-Grows Task.login_connect s false c = stays-Grows _ _ _ _ refl refl (λ n q. ground arith)
resume-Grows (Task.model_wait name) s r c = get_model-Grows _ s name
resume-Grows (Task.model_list name) s true c =
    if-Grows _ s (member name s.remote) _ _
      (λ b. stays-Grows _ _ _ _ refl refl (λ n q. ground arith))
      (λ absent. none_added refl refl (λ n q. ground (arith, q, absent)))
resume-Grows (Task.model_list name) s false c = stays-Grows _ _ _ _ refl refl (λ n q. ground arith)
resume-Grows (Task.model_add name) s true c = one_added name refl refl refl refl
resume-Grows (Task.model_add name) s false true = one_added name refl refl refl refl
resume-Grows (Task.model_add name) s false false =
    stays-Grows _ _ _ _ refl refl (λ n q. ground arith)
resume-Grows (Task.model_get name) s true c = stays-Grows _ _ _ _ refl refl (λ n q. ground arith)
resume-Grows (Task.model_get name) s false c = stays-Grows _ _ _ _ refl refl (λ n q. ground arith)
resume-Grows Task.idle s r c = stays-Grows _ _ _ _ refl refl (λ n q. ground arith)
resume-Grows Task.login_done s r c = stays-Grows _ _ _ _ refl refl (λ n q. ground arith)
resume-Grows Task.login_failed s r c = stays-Grows _ _ _ _ refl refl (λ n q. ground arith)
resume-Grows (Task.model_got n b) s r c = stays-Grows _ _ _ _ refl refl (λ n q. ground arith)
resume-Grows (Task.model_failed n) s r c = stays-Grows _ _ _ _ refl refl (λ n q. ground arith)

-- A name of the longer list is the new one, or a name of the shorter list.
member_cons_cases :
    (m n : Text) (ms : List Text) → member m (n ∷ ms) ≡ true → (m ≡ n) ⊎ (member m ms ≡ true)
unfolding member
member_cons_cases m n ms h = elim (Bool-cases (text_eq m n)) [
  | inl e ↦ inl ((text_eq_iff m n).0 e)
  | inr d ↦ inr (ground (arith, h, d))
]

member_later : (m n : Text) (ms : List Text) → member m ms ≡ true → member m (n ∷ ms) ≡ true
unfolding member
member_later m n ms h = ground (arith, h)

module _ (remote : List Text) {s : System} (e : IsExclusive s) (h : IsOnce remote s) where
  moved-IsOnce :
      (i : ℕ) (r : Session × Task) → Grows (s.tasks i) s.session r → IsOnce remote (moved i r s)
  moved-IsOnce i (session, t) (none_added er ea n) = record {
    adding = λ j name q. elim (Bool-cases (j == i)) [
      | inl b ↦ rw er (n name (sym (rw b refl) ∙ q))
      | inr b ↦ rw er (h.adding j name (sym (rw b refl) ∙ q))
    ];
    known = λ name q. rw er (h.known name (rw (← ea) q));
    old = λ name q. rw er (h.old name q);
    new = λ name q. h.new name (rw (← ea) q);
    distinct = rw ea h.distinct;
  }
  moved-IsOnce i (session, t) (one_added name et er ea n) = record {
    adding = λ j other q. elim (Bool-cases (j == i)) [
      | inl b ↦
          let here_too : t ≡ Task.model_add other = sym (rw b refl) ∙ q in
          absurd (ground (arith, sym n ∙ ap creates here_too))
      | inr b ↦
          let there : s.tasks j ≡ Task.model_add other = sym (rw b refl) ∙ q in
          let both : j ≡ i = e.model_lock.one j i (ap creates there) (ap creates et) in
          absurd (ground (arith, (==_iff j i).1 both))
    ];
    known = λ m q. rw er (elim (member_cons_cases m name s.session.added (rw (← ea) q)) [
      | inl same ↦ rw same (member_self name s.session.remote)
      | inr before ↦ member_later m name s.session.remote (h.known m before)
    ]);
    old = λ m q. rw er (member_later m name s.session.remote (h.old m q));
    new = λ m q. elim (member_cons_cases m name s.session.added (rw (← ea) q)) [
      | inl same ↦ rw same was_absent
      | inr before ↦ h.new m before
    ];
    distinct = rw ea (unadded, h.distinct);
  }
    where
      unseen : member name s.session.remote ≡ false
      unseen = h.adding i name et

      was_absent : member name remote ≡ false
      was_absent = elim (Bool-cases (member name remote)) [
        | inl b ↦ absurd (ground (arith, h.old name b, unseen))
        | inr b ↦ b
      ]

      unadded : member name s.session.added ≡ false
      unadded = elim (Bool-cases (member name s.session.added)) [
        | inl b ↦ absurd (ground (arith, h.known name b, unseen))
        | inr b ↦ b
      ]

  Step-IsOnce : {u : System} → Step s u → IsOnce remote u
  Step-IsOnce (Step.begin_login i free) = moved-IsOnce i _ (login-Grows (s.tasks i) s.session)
  Step-IsOnce (Step.begin_get_model i name free) =
      moved-IsOnce i _ (get_model-Grows (s.tasks i) s.session name)
  Step-IsOnce (Step.goes_on i returned created) =
      moved-IsOnce i _ (resume-Grows (s.tasks i) s.session returned created)

Reach-IsOnce :
    (remote : List Text) {s t : System}
    → IsExclusive s
    → IsOnce remote s
    → Reach s t
    → IsOnce remote t
Reach-IsOnce remote e h here = h
Reach-IsOnce remote e h (next r st) =
    Step-IsOnce remote (Reach-IsExclusive e r) (Reach-IsOnce remote e h r) st

-- Whatever the tasks do in whatever order from the start, each model is added at most once, and none
-- that the controller had already, as long as nobody else adds models.
pub added_once :
    (remote : List Text) {t : System}
    → Reach (start remote) t
    → IsDistinct t.session.added
      × ((name : Text) → member name t.session.added ≡ true → member name remote ≡ false)
unfolding member
added_once remote r =
    let once = Reach-IsOnce remote (start-IsExclusive remote) begins r in (once.distinct, once.new)
  where
    begins : IsOnce remote (start remote)
    begins = record {
      adding = λ i name q. ground arith;
      known = λ name q. ground arith;
      old = λ name q. q;
      new = λ name q. ground arith;
      distinct = tt;
    }
