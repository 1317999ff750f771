-- ===== src/Tests/Session.antt =====
-- Tasks that log in and ask for a model.
use n2vc.Prelude.{◌≡◌, refl, true, false, [], ◌∷◌}
use n2vc.Prelude.Exec.{ok}
use n2vc.Text.{Text, codes}
use n2vc.Libjuju.Connection.{member}
use n2vc.Session.{
  Task, System, Step, Reach, here, next, moved, start, login, get_model, resume, lookup, is_free,
}
use n2vc.Session.Exclusion.{IsExclusive, Reach-IsExclusive, start-IsExclusive}
use n2vc.Session.Once.{IsDistinct, added_once}
use n2vc.Session.Logout.{logout}
use n2vc.Session.Logout.Keys.{logout_keeps_keys}

abbrev after_0 : System
after_0 = moved 0 (login (start []).session) (start [])

abbrev after_1 : System
after_1 = moved 1 (login after_0.session) after_0

abbrev after_2 : System
after_2 = moved 0 (resume (after_1.tasks 0) true false after_1.session) after_1

abbrev after_3 : System
after_3 = moved 2 (get_model (codes "m") after_2.session) after_2

abbrev after_4 : System
after_4 = moved 2 (resume (after_3.tasks 2) true false after_3.session) after_3

abbrev after_5 : System
after_5 = moved 2 (resume (after_4.tasks 2) true false after_4.session) after_4

-- Task 0 connects while task 1 waits.
two_logins : Reach (start []) after_1
unfolding is_free
two_logins = next (next here (Step.begin_login 0 refl)) (Step.begin_login 1 refl)

one_waits : (after_1.tasks 0 ≡ Task.login_connect) × (after_1.tasks 1 ≡ Task.login_wait)
unfolding login
one_waits = (refl, refl)

Reach-IsExclusive_example : IsExclusive after_1
Reach-IsExclusive_example = Reach-IsExclusive (start-IsExclusive []) two_logins

added_model : Reach (start []) after_5
unfolding is_free login resume get_model lookup member
added_model =
    next
      (next
        (next (next two_logins (Step.goes_on 0 true false))
          (Step.begin_get_model 2 (codes "m") refl))
        (Step.goes_on 2 true false))
      (Step.goes_on 2 true false)

one_added : after_5.session.added ≡ codes "m" ∷ []
unfolding login resume get_model lookup member
one_added = refl

added_once_example :
    IsDistinct after_5.session.added
    × ((name : Text) → member name after_5.session.added ≡ true → member name [] ≡ false)
added_once_example = added_once [] added_model

logout_keeps_keys_example :
    let (r, t) = logout (λ name. true) true after_5.session in
    (r ≡ ok true)
    × (t.authenticated ≡ false)
    × (get_model (codes "m") (record after_2.session { juju_models = t.juju_models }) ≡ (
      record after_2.session { juju_models = t.juju_models },
      Task.model_got (codes "m") false,
    ))
unfolding login resume get_model lookup member
logout_keeps_keys_example =
    logout_keeps_keys (λ name. true) (λ name. refl) (codes "m") after_5.session after_2.session true
      refl refl
