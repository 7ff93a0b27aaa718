-- ===== src/Controller/Storage/Guards.antt =====
-- The finalizer of a disk and of a disk snapshot outlives the child.
use ch_vmm.Prelude.{
  String, ◌≡◌, refl, ◌≢◌, inl, inr, Bool, true, false, [], ◌∷◌, Option, none, some, arith,
  if◌then◌else◌,
}
use ch_vmm.Controller.Names.{Name}
use ch_vmm.Controller.Program.{
  Answer, Answer-cases, done, not_found, already_exists, conflict, failed, Result, ok, err,
  panicked, Gone, bind, must, must-return, return, present, ◌>>◌, ◌>>=◌,
}
use ch_vmm.Controller.Shrink.{Requeue}
use ch_vmm.Controller.Storage.{
  Request, get_object, get_child, update_status, event, delete_child, remove_finalizer,
  add_finalizer, create_child, call, Trace, Server, Meta, M, create_if_owned, create_owned,
  handle_deletion, dispatch,
}

module _ {C T X : Type 0} (server : Server C T X) (name : Name) where
  -- The last request but for events was a deletion of the child of that name, which found it gone.
  unfoldable pub Freed : Trace C T → Type 0
  Freed (delete_child n ∷ t) = (n ≡ name) × Gone (server.answer t (delete_child n))
  Freed (event e ∷ t) = Freed t
  Freed t = ⊥

  -- Each removal of the finalizer followed such a deletion.
  unfoldable pub Guards : Trace C T → Type 0
  unfolding Freed
  Guards [] = Unit {0}
  Guards (remove_finalizer ∷ t) = Freed t × Guards t
  Guards (r ∷ t) = Guards t

  removed-Guards :
      (guarded : Bool) (t : Trace C T)
      → Freed t
      → Guards t
      → Guards
          ((if guarded
              then (do updated ← call server remove_finalizer; must updated; return {A = Requeue} 0)
              else return 0)
            t).1
  unfolding Guards
  removed-Guards true t f g =
      rw (must-return {A = Requeue} (server.answer t remove_finalizer) 0 (remove_finalizer ∷ t))
        (f, g)
  removed-Guards false t f g = g

  handle_deletion-Guards :
      (object : Meta) (reason : String) (t : Trace C T)
      → object.name ≡ name
      → Guards t
      → Guards (handle_deletion server object reason t).1
  unfolding handle_deletion Guards Freed
  handle_deletion-Guards object reason t named g =
      let asked : Trace C T = delete_child object.name ∷ t in
      elim (Answer-cases (server.answer t (delete_child object.name))) [
        | inl e ↦ rw e (removed-Guards object.guarded (event reason ∷ asked) (named, inl e) g)
        | inr (inl e) ↦ rw e (removed-Guards object.guarded asked (named, inr e) g)
        | inr (inr (inl e)) ↦ rw e g
        | inr (inr (inr (inl e))) ↦ rw e g
        | inr (inr (inr (inr e))) ↦ rw e g
      ]

  -- An object that is found has the name that was asked for.
  unfoldable pub IsNamed : Option Meta → Type 0
  IsNamed none = Unit {0}
  IsNamed (some object) = object.name ≡ name

  pub dispatch-Guards :
      (a : Answer) (found : Option Meta) (reason : String) (work : M server Requeue) (t : Trace C T)
      → IsNamed found
      → ((s : Trace C T) → Guards s → Guards (work s).1)
      → Guards t
      → Guards (dispatch server a found reason work t).1
  unfolding dispatch Guards IsNamed
  dispatch-Guards done (some object) reason work t named h g = ground (
    arith,
    handle_deletion-Guards object reason t named g,
    h t g,
    must-return {A = Requeue} (server.answer t add_finalizer) 0 (add_finalizer ∷ t),
  )
  dispatch-Guards done none reason work t named h g = g
  dispatch-Guards not_found found reason work t named h g = g
  dispatch-Guards already_exists found reason work t named h g = g
  dispatch-Guards conflict found reason work t named h g = g
  dispatch-Guards failed found reason work t named h g = g

  create_if_owned-Guards :
      (a : Answer) (child : C) (t : Trace C T)
      → Guards t
      → Guards (create_if_owned server a child t).1
  unfolding create_if_owned Guards
  create_if_owned-Guards done child t g = g
  create_if_owned-Guards not_found child t g = g
  create_if_owned-Guards already_exists child t g = g
  create_if_owned-Guards conflict child t g = g
  create_if_owned-Guards failed child t g = g

  -- The requests that a reconciler makes for an object that stays, one at a time.
  call-Guards : (r : Request C T) (t : Trace C T) → Guards t → r ≢ remove_finalizer → Guards (r ∷ t)
  unfolding Guards
  call-Guards get_object t g h = g
  call-Guards add_finalizer t g h = g
  call-Guards remove_finalizer t g h = absurd (h refl)
  call-Guards (get_child n) t g h = g
  call-Guards (delete_child n) t g h = g
  call-Guards (create_child c) t g h = g
  call-Guards (update_status s) t g h = g
  call-Guards (event e) t g h = g

  -- Behind a bind.
  pub bind-Guards :
      {A B : Type 0} (r : Result A × Trace C T) (f : A → M server B)
      → Guards r.1
      → ((a : A) (s : Trace C T) → Guards s → Guards (f a s).1)
      → Guards (bind r f).1
  bind-Guards (ok a, t) f g h = h a t g
  bind-Guards (err e, t) f g h = g
  bind-Guards (panicked, t) f g h = g

  pub present-Guards : (a : Answer) (t : Trace C T) → Guards t → Guards (present a t).1
  present-Guards done t g = g
  present-Guards not_found t g = g
  present-Guards already_exists t g = g
  present-Guards conflict t g = g
  present-Guards failed t g = g

  pub must-Guards : (a : Answer) (t : Trace C T) → Guards t → Guards (must a t).1
  must-Guards done t g = g
  must-Guards not_found t g = g
  must-Guards already_exists t g = g
  must-Guards conflict t g = g
  must-Guards failed t g = g

  pub create_owned-Guards :
      (owned : Name) (child : C) (t : Trace C T)
      → Guards t
      → Guards (create_owned server owned child t).1
  unfolding create_owned
  create_owned-Guards owned child = create_if_owned-Guards (server.owned owned) child
