-- ===== src/Observer/Registry.antt =====
-- Registration: what is registered, and what a registration or its end leaves alone.
use n2vc.Prelude.{
  ◌≡◌, refl, none, some, arith, eq_iff, ◌=ₛ◌, if◌then◌else◌, String, Bool, true, false, Option,
}
use n2vc.Prelude.Dict
use n2vc.Prelude.Dict.{Dict, get-put, get-remove}
use n2vc.Database.{DbDict}
use n2vc.Observer.{
  new_entity, Observer, Entity, register_machine, unregister_machine, is_machine_registered,
  register_application, unregister_application, is_application_registered, register_action,
  unregister_action, is_action_registered,
}

-- What the observer knows of an entity, by the kind of the entity.
pub data Kind : Type 0 where
  machine application action : Kind

unfoldable pub entity : Kind → String → Observer → Option Entity
entity Kind.machine id o = Dict.get id o.machines
entity Kind.application id o = Dict.get id o.applications
entity Kind.action id o = Dict.get id o.actions

abbrev pub kind_name : Kind → String
kind_name Kind.machine = "machine"
kind_name Kind.application = "application"
kind_name Kind.action = "action"

abbrev pub same_kind : Kind → Kind → Bool
same_kind Kind.machine Kind.machine = true
same_kind Kind.application Kind.application = true
same_kind Kind.action Kind.action = true
same_kind _ _ = false

abbrev pub register : Kind → String → Option DbDict → Observer → Observer
register Kind.machine = register_machine
register Kind.application = register_application
register Kind.action = register_action

abbrev pub unregister : Kind → String → Observer → Observer
unregister Kind.machine = unregister_machine
unregister Kind.application = unregister_application
unregister Kind.action = unregister_action

abbrev pub is_registered : Kind → String → Observer → Bool
is_registered Kind.machine = is_machine_registered
is_registered Kind.application = is_application_registered
is_registered Kind.action = is_action_registered

-- After a registration exactly the registered entity of that kind is new: its event is not set.
entity-register :
    (k k' : Kind) (i j : String) (d : Option DbDict) (o : Observer)
    → entity k j (register k' i d o) ≡ (
        if same_kind k k'
        then (if i =ₛ j then some (new_entity i (kind_name k') d) else entity k j o)
        else entity k j o)
unfolding entity register_machine register_application register_action
entity-register Kind.machine Kind.machine i j d o = get-put i j _ o.machines
entity-register Kind.application Kind.application i j d o = get-put i j _ o.applications
entity-register Kind.action Kind.action i j d o = get-put i j _ o.actions
entity-register _ _ i j d o = refl

remove_if_there :
    (i j : String) (d : Dict Entity)
    → (if Dict.has i d then Dict.get j (Dict.remove i d) else Dict.get j d)
      ≡ (if i =ₛ j then none else Dict.get j d)
unfolding Dict.has
remove_if_there i j d = ground (arith, get-remove i j d, eq_iff i j)

-- After the end of a registration exactly that entity of that kind is gone.
entity-unregister :
    (k k' : Kind) (i j : String) (o : Observer)
    → entity k j (unregister k' i o)
      ≡ (if same_kind k k' then (if i =ₛ j then none else entity k j o) else entity k j o)
unfolding entity unregister_machine unregister_application unregister_action
entity-unregister Kind.machine Kind.machine i j o = ground (arith, remove_if_there i j o.machines)
entity-unregister Kind.application Kind.application i j o =
    ground (arith, remove_if_there i j o.applications)
entity-unregister Kind.action Kind.action i j o = ground (arith, remove_if_there i j o.actions)
entity-unregister k k' i j o = ground arith
