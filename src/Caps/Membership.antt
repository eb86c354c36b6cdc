-- ===== src/Caps/Membership.antt =====
-- kcaps.c: who is in which set after kcapset_addcap, kcapset_move_cap and kcapset_delcap.
use sharkix.Common.{
  ℕ, ◌≡◌, ◌==◌, not, ◌&&◌, if◌then◌else◌, Bool, true, false, refl, Option, none, some, is_some,
  arith, inl, inr, Option-cases, Bool-cases,
}
use sharkix.Table.{UtHash}
use sharkix.Table.Laws.{find, find-add, find-del, find-modify}
use sharkix.Caps.State.{CapSet, Caps}
use sharkix.Caps.Valid.{IsValid}
use sharkix.Caps.Global.{kcap_cap_exists}
use sharkix.Caps.Sets.{
  kcapset_addcap, kcapset_hascap, transfer, kcapset_move_cap, change_set, insert_member,
  remove_member,
}

module _ ⦃h : UtHash⦄ where
  hascap_in :
      (k c : ℕ) (x : CapSet) (s : Caps)
      → find k s.capsets ≡ some x
      → kcapset_hascap k c s ≡ is_some (find c x.caps)
  unfolding kcapset_hascap
  hascap_in k c x s e = ground arith

  hascap_missing : (k c : ℕ) (s : Caps) → find k s.capsets ≡ none → kcapset_hascap k c s ≡ false
  unfolding kcapset_hascap
  hascap_missing k c s e = ground arith

  pub kcapset_hascap-remove :
      (k c i d : ℕ) (s : Caps)
      → kcapset_hascap i d (change_set k (remove_member c) s)
        ≡ (if (i == k) && (d == c) then false else kcapset_hascap i d s)
  unfolding kcapset_hascap
  kcapset_hascap-remove k c i d s = elim (Option-cases (find i s.capsets)) [
    | inl e ↦ ground (arith, find-modify i k (remove_member c) s.capsets)
    | inr (x, e) ↦ ground (arith, find-modify i k (remove_member c) s.capsets, find-del d c x.caps)
  ]

  kcapset_hascap-insert :
      (k c i d : ℕ) (x : CapSet) (s : Caps)
      → find k s.capsets ≡ some x
      → find c x.caps ≡ none
      → kcapset_hascap i d (change_set k (insert_member c) s)
        ≡ (if (i == k) && (d == c) then true else kcapset_hascap i d s)
  unfolding kcapset_hascap
  kcapset_hascap-insert k c i d x s here free =
      ground (arith, find-modify i k (insert_member c) s.capsets, find-add d c c x.caps free)

  -- kcapset_addcap succeeds exactly when memory is there, the capability is live, the set exists and
  -- does not hold it yet. Then it is a member and no other membership changed; otherwise nothing did.
  pub kcapset_addcap_lem :
      (mem : Bool) (k c i d : ℕ) (s : Caps)
      → let r = kcapset_addcap mem k c s in
        (r.1 ≡ (
          mem && kcap_cap_exists c s && is_some (find k s.capsets) && not (kcapset_hascap k c s)))
        × (kcapset_hascap i d r.0
            ≡ (if r.1 && (i == k) && (d == c) then true else kcapset_hascap i d s))
        × (r.0 ≡ (if r.1 then r.0 else s))
  unfolding kcapset_addcap kcap_cap_exists
  kcapset_addcap_lem mem k c i d s = elim (Option-cases (find k s.capsets)) [
    | inl e ↦ ground arith
    | inr (x, e) ↦ elim (Option-cases (find c x.caps)) [
      | inl free ↦ ground (arith, hascap_in k c x s e, kcapset_hascap-insert k c i d x s e free)
      | inr (old, there) ↦ ground (arith, hascap_in k c x s e)
    ]
  ]

  -- The handle of a set, if it is there.
  abbrev pub handle_of : Option CapSet → Option ℕ
  handle_of none = none
  handle_of (some x) = some x.capset_handle

  -- A change of members keeps every set and its handle.
  change_set_handle :
      (k i : ℕ) (f : CapSet → CapSet) (s : Caps)
      → ((x : CapSet) → (f x).capset_handle ≡ x.capset_handle)
      → handle_of (find i (change_set k f s).capsets) ≡ handle_of (find i s.capsets)
  change_set_handle k i f s same = elim (Option-cases (find i s.capsets)) [
    | inl e ↦ ground (arith, find-modify i k f s.capsets)
    | inr (x, e) ↦ ground (arith, find-modify i k f s.capsets, same x)
  ]

  -- Apart from memberships, everything in the tables is as it was.
  abbrev pub OnlyMembers : (i : ℕ) → (s t : Caps) → Type 0
  OnlyMembers i s t =
      (t.caps ≡ s.caps)
      × (t.names ≡ s.names)
      × (t.next_cap_handle ≡ s.next_cap_handle)
      × (t.next_capset_handle ≡ s.next_capset_handle)
      × (handle_of (find i t.capsets) ≡ handle_of (find i s.capsets))

  abbrev pub Moved : (src dst c i d : ℕ) → Caps → Caps × Bool → Type 0
  Moved src dst c i d s r =
      (r.1 ≡ (is_some (find dst s.capsets) && kcapset_hascap src c s))
      × (kcapset_hascap i d r.0 ≡ (
          if r.1 && (d == c) && (i == dst)
          then true
          else if r.1 && (d == c) && (i == src)
          then false
          else kcapset_hascap i d s))
      × (r.0 ≡ (if r.1 then r.0 else s))
      × OnlyMembers i s r.0

  move_within_set :
      (src dst c : ℕ) (x y : CapSet) (s : Caps)
      → find src s.capsets ≡ some x
      → find dst s.capsets ≡ some y
      → kcapset_move_cap src dst c s
        ≡ (if src == dst then (s, is_some (find c x.caps)) else transfer src dst c x y s)
  unfolding kcapset_move_cap
  move_within_set src dst c x y s e f = ground arith

  -- A membership is the one at hand, or another one.
  hascap_alike :
      (k c i d : ℕ) (s : Caps)
      → ((i == k) && (d == c)) ≡ true
      → kcapset_hascap i d s ≡ kcapset_hascap k c s
  hascap_alike k c i d s both =
      let p : i ≡ k = ground arith in let q : d ≡ c = ground arith in rw (p, q)

  transfer-Moved :
      (src dst c i d : ℕ) (x y : CapSet) (entry : ℕ) (s : Caps)
      → find src s.capsets ≡ some x
      → find dst s.capsets ≡ some y
      → find c x.caps ≡ some entry
      → entry ≡ c
      → (src == dst) ≡ false
      → Moved src dst c i d s (transfer src dst c x y s)
  unfolding transfer
  transfer-Moved src dst c i d x y entry s e f held same apart =
      elim (Option-cases (find c y.caps)) [
        | inr (old, there) ↦ ground (
          arith,
          hascap_in dst c y s f,
          hascap_in src c x s e,
          kcapset_hascap-remove src c i d s,
          hascap_alike dst c i d s,
          change_set_handle src i (remove_member c) s (λ z. refl),
        )
        | inl free ↦
            let taken = change_set src (remove_member c) s in
            let kept : find dst taken.capsets ≡ some y =
              ground (arith, find-modify dst src (remove_member c) s.capsets) in
            ground (
              arith,
              hascap_in src c x s e,
              kcapset_hascap-remove src c i d s,
              kcapset_hascap-insert dst entry i d y taken kept (rw same free),
              change_set_handle src i (remove_member c) s (λ z. refl),
              change_set_handle dst i (insert_member entry) taken (λ z. refl),
            )
      ]

  -- kcapset_move_cap between any sets of valid tables succeeds exactly when the target exists and the
  -- source holds the capability. When it succeeds, the capability is in the target and, when the two
  -- sets differ, not in the source; when it fails nothing changes. No other membership changes in any
  -- case, nor any capability, any name or a handle counter, and the same sets exist under their handles.
  pub kcapset_move_cap_lem :
      (src dst c i d : ℕ) (s : Caps)
      → IsValid s
      → Moved src dst c i d s (kcapset_move_cap src dst c s)
  kcapset_move_cap_lem src dst c i d s v = elim (Option-cases (find src s.capsets)) [
    | inl e ↦ unfold kcapset_move_cap in ground (arith, hascap_missing src c s)
    | inr (x, e) ↦ elim (Option-cases (find dst s.capsets)) [
      | inl f ↦ unfold kcapset_move_cap in ground (arith, hascap_in src c x s)
      | inr (y, f) ↦ rw (move_within_set src dst c x y s e f) (elim (Bool-cases (src == dst)) [
        | inl one_set ↦ rw one_set (
            ground
              (arith, hascap_in src c x s e, hascap_alike dst c i d s, hascap_alike src c i d s))
        | inr two_sets ↦ rw two_sets (elim (Option-cases (find c x.caps)) [
          | inl missing ↦ unfold transfer in ground (arith, hascap_in src c x s e)
          | inr (entry, held) ↦
              transfer-Moved src dst c i d x y entry s e f held (v.members src x c entry e held).0
                two_sets
        ])
      ])
    ]
  ]
