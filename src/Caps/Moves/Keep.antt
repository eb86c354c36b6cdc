-- ===== src/Caps/Moves/Keep.antt =====
-- Every primitive change keeps the invariant of the tables.
use sharkix.Common.{bit_or}
use sharkix.Table.{UtHash}
use sharkix.Caps.Rights.{validate_rights-sub, validate_rights-bit_or}
use sharkix.Caps.State.{Caps}
use sharkix.Caps.Valid.{
  IsValid, publish-IsValid, burn-IsValid, kcap_destroy-IsValid, unname-IsValid, name-IsValid,
  remove_member-IsValid, insert_member-IsValid, kcapset_new-IsValid, drop_set-IsValid,
}
use sharkix.Caps.Moves.{
  Move, Moves, burn, shrink, join, destroy, unname, name, open_set, close_set, enter, leave, here,
  next,
}

module _ ⦃h : UtHash⦄ where
  Move-IsValid : {s t : Caps} → IsValid s → Move s t → IsValid t
  Move-IsValid v (burn room) = burn-IsValid v room
  Move-IsValid {s} v (shrink k rights src room e sub) =
      publish-IsValid v src.type src.obj_handle rights room
        (validate_rights-sub src.type rights src.rights sub (v.caps k src e).1)
  Move-IsValid {s} v (join j k a b room e f object type) =
      publish-IsValid v a.type a.obj_handle (bit_or a.rights b.rights) room (
        validate_rights-bit_or a.type a.rights b.rights (v.caps j a e).1 (rw type (v.caps k b f).1))
  Move-IsValid v (destroy k) = kcap_destroy-IsValid v k
  Move-IsValid v (unname k) = unname-IsValid v k
  Move-IsValid v (name k n same short live free) = name-IsValid v k n same short live free
  Move-IsValid v (open_set room) = kcapset_new-IsValid v room
  Move-IsValid v (close_set k) = drop_set-IsValid v k
  Move-IsValid v (enter k c set issued there free) =
      insert_member-IsValid v k c set issued there free
  Move-IsValid v (leave k c) = remove_member-IsValid v k c

  pub Moves-IsValid : {s t : Caps} → IsValid s → Moves s t → IsValid t
  Moves-IsValid v here = v
  Moves-IsValid v (next m last) = Move-IsValid (Moves-IsValid v m) last
