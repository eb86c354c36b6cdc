-- ===== src/Caps/Resolve.antt =====
-- kcaps.c: looking up authority in a set. A structure written through `out` is an option,
-- and `none` is -1.
use sharkix.Common.{
  ℕ, ◌==◌, if◌then◌else◌, Bool, not, ◌||◌, Option, none, some, List, [], ◌∷◌, bit_and, is_some,
}
use sharkix.Table.{UtHash}
use sharkix.Table.Laws.{find, entries}
use sharkix.Caps.State.{Cap, CapSet, Caps}
use sharkix.Caps.Global.{find_cap}
use sharkix.Caps.Sets.{find_set}

-- CAP_HAS_ALL
abbrev pub has_all : Cap → ℕ → Bool
has_all cap required = bit_and cap.rights required == required

-- CAP_IS_TYPE
abbrev pub is_type : Cap → ℕ → Bool
is_type cap type = cap.type == type

module _ ⦃h : UtHash⦄ where
  -- The HASH_ITER of kcapset_resolve_cap: a member whose capability is gone is passed over.
  unfoldable pub first_match : ℕ → ℕ → List (ℕ × ℕ) → Caps → Option Cap
  first_match type rights [] s = none
  first_match type rights ((_, member) ∷ rest) s = elim (find_cap member s) [
    | none ↦ first_match type rights rest s
    | some cap ↦
        let later = first_match type rights rest s in
        if not (is_type cap type)
        then later
        else if not (has_all cap rights)
        then later
        else some cap
  ]

  unfoldable pub kcapset_resolve_cap : ℕ → ℕ → ℕ → Caps → Option Cap
  kcapset_resolve_cap handle type rights s = elim (find_set handle s) [
    | none ↦ none
    | some set ↦ first_match type rights (entries set.caps) s
  ]

  -- `entry ? kcap_find_locked(cap_handle) : NULL`
  unfoldable pub member_cap : CapSet → ℕ → Caps → Option Cap
  member_cap set cap s = if is_some (find cap set.caps) then find_cap cap s else none

  unfoldable pub kcapset_resolve_handle : (out : Bool) → ℕ → ℕ → ℕ → ℕ → Caps → Option ℕ
  unfolding member_cap
  kcapset_resolve_handle out handle cap type rights s =
      if not out then none else elim (find_set handle s) [
        | none ↦ none
        | some set ↦ elim (member_cap set cap s) [
          | none ↦ none
          | some found ↦
              if not (is_type found type) || not (has_all found rights)
              then none
              else some found.obj_handle
        ]
      ]

  unfoldable pub kcapset_resolve_record : (out : Bool) → ℕ → ℕ → ℕ → Caps → Option Cap
  unfolding member_cap
  kcapset_resolve_record out handle cap rights s =
      if not out then none else elim (find_set handle s) [
        | none ↦ none
        | some set ↦ elim (member_cap set cap s) [
          | none ↦ none
          | some found ↦ if not (has_all found rights) then none else some found
        ]
      ]

  unfoldable pub kcapset_check_perms : ℕ → ℕ → ℕ → Caps → Bool
  kcapset_check_perms handle type rights s = is_some (kcapset_resolve_cap handle type rights s)
