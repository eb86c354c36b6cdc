-- ===== src/Caps/Lookup.antt =====
-- kcaps.c: what the kcapset_resolve functions answer.
use sharkix.Common.{
  ℕ, ◌≡◌, ◌↔◌, refl, sym, ◌∙◌, ◌&&◌, if◌then◌else◌, Bool, true, none, some, is_some, arith, ◌⊎◌,
  inl, inr, Option-cases, Bool-cases, bit_and, List, [], ◌∷◌, Listed,
}
use sharkix.Table.{UtHash}
use sharkix.Table.Laws.{find, entries, find-del}
use sharkix.Caps.State.{Cap, CapSet, Caps}
use sharkix.Caps.Global.{kcap_destroy}
use sharkix.Caps.Resolve.{
  has_all, is_type, first_match, kcapset_resolve_cap, kcapset_resolve_handle,
  kcapset_resolve_record, kcapset_check_perms,
}

module _ ⦃h : UtHash⦄ where
  -- The set exists, lists the handle, and the handle is a live capability with all of the rights.
  pub record Authorizes (s : Caps) (set cap rights : ℕ) (found : Cap) : Type 0 where
    pub members : CapSet
    pub entry : ℕ
    pub has_set : find set s.capsets ≡ some members
    pub listed : find cap members.caps ≡ some entry
    pub live : find cap s.caps ≡ some found
    pub allowed : bit_and found.rights rights ≡ rights

  -- kcapset_resolve_record answers with a capability exactly when the set holds that very handle, it
  -- is live, and it carries every required right.
  pub kcapset_resolve_record_iff :
      (set cap rights : ℕ) (s : Caps) (found : Cap)
      → (kcapset_resolve_record true set cap rights s ≡ some found)
        ↔ Authorizes s set cap rights found
  unfolding kcapset_resolve_record
  kcapset_resolve_record_iff set cap rights s found = (
    λ e. sound (Option-cases (find set s.capsets)) e,
    λ a. ground (arith, a.has_set, a.listed, a.live, a.allowed),
  )
    where
      within :
          (x : CapSet)
          → find set s.capsets ≡ some x
          → kcapset_resolve_record true set cap rights s ≡ some found
          → (find cap x.caps ≡ none) ⊎ ((e : ℕ) × (find cap x.caps ≡ some e))
          → Authorizes s set cap rights found
      within x here e (inl missing) = absurd (ground arith)
      within x here e (inr (entry, listed)) = record {
        members = x;
        entry = entry;
        has_set = here;
        listed = listed;
        live = ground arith;
        allowed = ground arith;
      }

      sound :
          (find set s.capsets ≡ none) ⊎ ((x : CapSet) × (find set s.capsets ≡ some x))
          → kcapset_resolve_record true set cap rights s ≡ some found
          → Authorizes s set cap rights found
      sound (inl missing) e = absurd (ground arith)
      sound (inr (x, here)) e = within x here e (Option-cases (find cap x.caps))

  -- kcapset_resolve_handle is kcapset_resolve_record with the type checked and the object returned.
  pub kcapset_resolve_handle-record :
      (out : Bool) (set cap type rights : ℕ) (s : Caps)
      → kcapset_resolve_handle out set cap type rights s
        ≡ elim (kcapset_resolve_record out set cap rights s) [
          | none ↦ none
          | some found ↦ if is_type found type then some found.obj_handle else none
        ]
  unfolding kcapset_resolve_handle kcapset_resolve_record
  kcapset_resolve_handle-record out set cap type rights s = ground arith

  -- A destroyed capability gives nothing to any set that still lists it.
  pub kcap_destroy_revokes :
      (out : Bool) (set cap type rights : ℕ) (s : Caps)
      → (kcapset_resolve_handle out set cap type rights (kcap_destroy cap s).0 ≡ none)
        × (kcapset_resolve_record out set cap rights (kcap_destroy cap s).0 ≡ none)
  unfolding kcapset_resolve_handle kcapset_resolve_record kcap_destroy
  kcap_destroy_revokes out set cap type rights s = ground (arith, find-del cap cap s.caps)

  -- kcapset_resolve_handle gives out an object exactly when the set holds that very handle, and the
  -- live capability has the required type and rights and stands for that object.
  pub kcapset_resolve_handle_iff :
      (set cap type rights obj : ℕ) (s : Caps)
      → (kcapset_resolve_handle true set cap type rights s ≡ some obj) ↔ (
          (found : Cap) × Authorizes s set cap rights found
          × (found.type ≡ type)
          × (found.obj_handle ≡ obj))
  kcapset_resolve_handle_iff set cap type rights obj s = (
    λ e.
        let e' = sym (kcapset_resolve_handle-record true set cap type rights s) ∙ e in
        elim (Option-cases (kcapset_resolve_record true set cap rights s)) [
          | inl none_found ↦ absurd (ground arith)
          | inr (found, is) ↦ (
            found,
            (kcapset_resolve_record_iff set cap rights s found).0 is,
            ground arith,
            ground arith,
          )
        ],
    λ (found, a, t, o).
        kcapset_resolve_handle-record true set cap type rights s
        ∙ rw ((kcapset_resolve_record_iff set cap rights s found).1 a) (ground arith),
  )

  -- Some entry of the walk is live with the type and all of the rights.
  pub record Qualifies (type rights : ℕ) (l : List (ℕ × ℕ)) (s : Caps) (cap : Cap) : Type 0 where
    pub key : ℕ
    pub member : ℕ
    pub listed : Listed key member l
    pub live : find member s.caps ≡ some cap
    pub of_type : cap.type ≡ type
    pub allowed : bit_and cap.rights rights ≡ rights

  Qualifies-later :
      {type rights : ℕ} {l : List (ℕ × ℕ)} {s : Caps} {cap : Cap} (e : ℕ × ℕ)
      → Qualifies type rights l s cap
      → Qualifies type rights (e ∷ l) s cap
  Qualifies-later e q = record {
    key = q.key;
    member = q.member;
    listed = inr q.listed;
    live = q.live;
    of_type = q.of_type;
    allowed = q.allowed;
  }

  first_match_sound :
      (type rights : ℕ) (l : List (ℕ × ℕ)) (s : Caps) (cap : Cap)
      → first_match type rights l s ≡ some cap
      → Qualifies type rights l s cap
  unfolding first_match
  first_match_sound type rights [] s cap e = absurd (cc)
  first_match_sound type rights ((k, m) ∷ l) s cap e = elim (Option-cases (find m s.caps)) [
    | inl gone ↦ Qualifies-later (k, m) (first_match_sound type rights l s cap (ground arith))
    | inr (found, live) ↦ elim (Bool-cases (is_type found type && has_all found rights)) [
      | inl good ↦ record {
        key = k;
        member = m;
        listed = inl (refl, refl);
        live = ground arith;
        of_type = ground arith;
        allowed = ground arith;
      }
      | inr bad ↦ Qualifies-later (k, m) (first_match_sound type rights l s cap (ground arith))
    ]
  ]

  first_match_complete :
      (type rights : ℕ) (l : List (ℕ × ℕ)) (s : Caps) (cap : Cap) (k m : ℕ)
      → Listed k m l
      → find m s.caps ≡ some cap
      → cap.type ≡ type
      → bit_and cap.rights rights ≡ rights
      → is_some (first_match type rights l s) ≡ true
  unfolding first_match
  first_match_complete type rights [] s cap k m listed live t r = absurd listed
  first_match_complete type rights ((j, n) ∷ l) s cap k m (inl (p, q)) live t r = ground arith
  first_match_complete type rights ((j, n) ∷ l) s cap k m (inr later) live t r =
      ground (arith, first_match_complete type rights l s cap k m later)

  -- kcapset_check_perms says yes exactly when some member that the walk of the set meets is a live
  -- capability of the type with all of the rights; members that were destroyed do not count.
  pub kcapset_check_perms_iff :
      (set type rights : ℕ) (s : Caps)
      → (kcapset_check_perms set type rights s ≡ true) ↔ (
          (x : CapSet) × (cap : Cap) × (find set s.capsets ≡ some x)
          × Qualifies type rights (entries x.caps) s cap)
  unfolding kcapset_check_perms kcapset_resolve_cap
  kcapset_check_perms_iff set type rights s = (
    λ yes. elim (Option-cases (find set s.capsets)) [
      | inl missing ↦ absurd (ground arith)
      | inr (x, here) ↦ elim (Option-cases (first_match type rights (entries x.caps) s)) [
        | inl nothing ↦ absurd (ground arith)
        | inr (cap, e) ↦ (x, cap, here, first_match_sound type rights (entries x.caps) s cap e)
      ]
    ],
    λ (x, cap, here, q). ground (
      arith,
      first_match_complete type rights (entries x.caps) s cap q.key q.member q.listed q.live
          q.of_type q.allowed,
    ),
  )
