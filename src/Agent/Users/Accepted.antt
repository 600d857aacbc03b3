-- ===== src/Agent/Users/Accepted.antt =====
-- `ApplyBox` on a VLESS inbound (cmd/mini-sb-agent/user_manager.go): the UUIDs that it accepts.
use mini_sb_xboard_agent.Base.{
  ◌≡◌, refl, sym, ap, ◌∙◌, Bool, true, false, not, ◌&&◌, ◌||◌, some, List, [], ◌∷◌, arith,
  Bool-cases, Option-cases, Result-cases, inl, inr, Result, ok, err,
}
use mini_sb_xboard_agent.Base.Int.{ℤ, int_eq}
use mini_sb_xboard_agent.Base.Text.{Text, text_eq, text_beq_iff, is_empty}
use mini_sb_xboard_agent.Base.Map.{Map, IsMap, lookup}
use mini_sb_xboard_agent.PanelApi.{User}
use mini_sb_xboard_agent.Agent.Users.{
  Clock, UserManager, VlessUser, Changes, no_changes, same_user, retire_all,
}
use mini_sb_xboard_agent.Agent.Users.Apply.{
  Inbound, vless, planned, apply_inbound, apply_inbounds, apply_box, unless_empty, and_then,
}
use mini_sb_xboard_agent.Agent.Users.Index.{list_index, index_by_id-IsMap}
use mini_sb_xboard_agent.Agent.Users.Tables.{
  any_entry, found_entry, entry_passes, mem_text, mem_vless, is_retired, is_enrolled, has_uuid,
  retire_all_lem, enrol_all_lem,
}

-- No UUID stands for two numbers.
abbrev pub IsDistinct : Map ℤ User → Type 0
IsDistinct users =
    (i j : ℤ) (a b : User)
    → lookup i users ≡ some a
    → lookup j users ≡ some b
    → is_empty a.uuid ≡ false
    → a.uuid ≡ b.uuid
    → i ≡ j

module _ (v : Text) (users next : Map ℤ User) (named : is_empty v ≡ false) (unique : IsMap users)
    (unique' : IsMap next) (distinct : IsDistinct users) where
  kept_is_listed :
      any_entry (has_uuid v) users ≡ true
      → any_entry (is_retired next v) users ≡ false
      → any_entry (has_uuid v) next ≡ true
  kept_is_listed known kept =
      let (id, old, held, has) = found_entry (has_uuid v) users unique known in
      let still : (is_retired next v id old ≡ true) → any_entry (is_retired next v) users ≡ true =
        entry_passes (is_retired next v) users id old held in
      elim (Option-cases (lookup id next)) [
        | inl gone ↦ ground (arith, still)
        | inr (nu, stays) ↦ entry_passes (has_uuid v) next id nu stays (
            ground (
              arith,
              still,
              text_beq_iff old.uuid nu.uuid,
              text_beq_iff old.uuid v,
              text_beq_iff nu.uuid v,
            ))
      ]

  enrolled_is_listed :
      any_entry (is_enrolled users v) next ≡ true → any_entry (has_uuid v) next ≡ true
  enrolled_is_listed enrolled =
      let (id, nu, held, has) = found_entry (is_enrolled users v) next unique' enrolled in
      entry_passes (has_uuid v) next id nu held (ground arith)

  -- A user whose data did not change is not deleted, by another user's UUID either.
  stays_accepted :
      (i j : ℤ) (old nu gone : User)
      → lookup i users ≡ some old
      → lookup i next ≡ some nu
      → same_user old nu ≡ true
      → has_uuid v i old ≡ true
      → lookup j users ≡ some gone
      → is_retired next v j gone ≡ true
      → ⊥
  stays_accepted i j old nu gone was held same has found drops =
      let old_is : old.uuid ≡ v = (text_beq_iff old.uuid v).0 has in
      let gone_is : gone.uuid ≡ v = (text_beq_iff gone.uuid v).0 (ground arith) in
      let e : j ≡ i =
        distinct j i gone old found was (ap is_empty gone_is ∙ named) (gone_is ∙ sym old_is) in
      let drops' : is_retired next v i gone ≡ true =
        ap (λ k. is_retired next v k gone) (sym e) ∙ drops in
      let found' : lookup i users ≡ some gone = ap (λ k. lookup k users) (sym e) ∙ found in
      ground arith

  listed_is_accepted :
      any_entry (has_uuid v) next ≡ true
      → any_entry (is_enrolled users v) next ≡ false
      → (any_entry (has_uuid v) users ≡ true) × (any_entry (is_retired next v) users ≡ false)
  listed_is_accepted listed enrolled =
      let (id, nu, held, has) = found_entry (has_uuid v) next unique' listed in
      let added : (is_enrolled users v id nu ≡ true) → any_entry (is_enrolled users v) next ≡ true =
        entry_passes (is_enrolled users v) next id nu held in
      elim (Option-cases (lookup id users)) [
        | inl new ↦ absurd (ground (arith, added))
        | inr (old, was) ↦
            let has' : has_uuid v id old ≡ true = ground (
              arith,
              added,
              text_beq_iff old.uuid nu.uuid,
              text_beq_iff old.uuid v,
              text_beq_iff nu.uuid v,
            ) in
            (
              entry_passes (has_uuid v) users id old was has',
              elim (Bool-cases (any_entry (is_retired next v) users)) [
                | inl retired ↦
                    let (j, gone, found, drops) =
                      found_entry (is_retired next v) users unique retired in
                    absurd (
                      stays_accepted id j old nu gone was held (ground (arith, added)) has' found
                        drops)
                | inr kept ↦ kept
              ],
            )
      ]

  accepted_after :
      (any_entry (has_uuid v) users && not (any_entry (is_retired next v) users))
        || any_entry (is_enrolled users v) next
      ≡ any_entry (has_uuid v) next
  accepted_after = ground (arith, kept_is_listed, enrolled_is_listed, listed_is_accepted)

module _ {W E : Type 0} where
  and_then_ok :
      (s : W × Result E (Unit {0})) (k : W → W × Result E (Unit {0}))
      → (and_then s k).1 ≡ ok tt
      → (s.1 ≡ ok tt) × (and_then s k ≡ k s.0)
  and_then_ok (w, ok _) k done = (refl, refl)
  and_then_ok (w, err e) k done = absurd (ground arith)

  and_then_stop : (s : W × Result E (Unit {0})) → and_then s (λ w. (w, ok tt)) ≡ s
  and_then_stop (w, ok _) = refl
  and_then_stop (w, err e) = refl

  pub apply_box_ok :
      (enabled : Bool) (clock : Clock) (inbounds : Map Text (Inbound W E)) (us : List User)
      (m : UserManager) (w : W)
      → (apply_box enabled clock inbounds us (m, w)).1 ≡ ok tt
      → let after = (apply_box enabled clock inbounds us (m, w)).0 in
        let done = apply_inbounds inbounds (planned enabled clock us m).0 w in
        (done.1 ≡ ok tt)
        × (after.1 ≡ done.0)
        × (after.0.users ≡ (list_index us).0)
        × (after.0.by_secret ≡ (list_index us).1)
  unfolding apply_box
  apply_box_ok enabled clock inbounds us m w worked =
      elim (Result-cases (apply_inbounds inbounds (planned enabled clock us m).0 w).1) [
        | inl (e, failed) ↦ absurd (ground arith)
        | inr (_, done) ↦
            (done, rw (apply_box, done) refl, rw (apply_box, done) refl, rw (apply_box, done) refl)
      ]

-- What the changes of `ApplyBox` do to the users that an inbound accepts.
planned_lem :
    (enabled : Bool) (clock : Clock) (us : List User) (m : UserManager) (v : Text)
    → is_empty v ≡ false
    → IsMap m.users
    → IsDistinct m.users
    → (accepted : Bool) → accepted ≡ any_entry (has_uuid v) m.users
    → let c = (planned enabled clock us m).0 in
      (accepted && not (mem_text v c.del_vless)) || mem_vless v c.add_vless
      ≡ any_entry (has_uuid v) (list_index us).0
planned_lem enabled clock us m v named unique distinct accepted before =
    let next = (list_index us).0 in
    let st = retire_all next m.users (no_changes, m) in
    let (dels, kept) = retire_all_lem v named next m.users (no_changes, m) in
    let (adds, kept') = enrol_all_lem v named enabled clock m.users next st in
    ap
      (λ a.
        (a && not (mem_text v (planned enabled clock us m).0.del_vless))
        || mem_vless v (planned enabled clock us m).0.add_vless)
      before
    ∙ ap
        (λ l.
          (any_entry (has_uuid v) m.users && not (mem_text v l))
          || mem_vless v (planned enabled clock us m).0.add_vless)
        kept'
    ∙ ap
        (λ b.
          (any_entry (has_uuid v) m.users && not b)
          || mem_vless v (planned enabled clock us m).0.add_vless)
        dels
    ∙ ap (λ b. (any_entry (has_uuid v) m.users && not (any_entry (is_retired next v) m.users)) || b)
        (adds ∙ ap (λ l. mem_vless v l || any_entry (is_enrolled m.users v) next) kept)
    ∙ accepted_after v m.users next named unique (index_by_id-IsMap us ([], []) tt) distinct

module _ {W E : Type 0} (accepts : W → Text → Bool)
    (del_users : List Text → W → W × Result E (Unit {0}))
    (add_users : List VlessUser → W → W × Result E (Unit {0}))
    (deletes : (l : List Text) (w : W) (v : Text)
      → (del_users l w).1 ≡ ok tt
      → accepts (del_users l w).0 v ≡ accepts w v && not (mem_text v l))
    (adds : (l : List VlessUser) (w : W) (v : Text)
      → (add_users l w).1 ≡ ok tt
      → accepts (add_users l w).0 v ≡ accepts w v || mem_vless v l) where
  deleted :
      (l : List Text) (w : W) (v : Text)
      → (unless_empty l (del_users l) w).1 ≡ ok tt
      → accepts (unless_empty l (del_users l) w).0 v ≡ accepts w v && not (mem_text v l)
  deleted [] w v done = ground arith
  deleted (x ∷ l) w v done = deletes (x ∷ l) w v done

  added :
      (l : List VlessUser) (w : W) (v : Text)
      → (unless_empty l (add_users l) w).1 ≡ ok tt
      → accepts (unless_empty l (add_users l) w).0 v ≡ accepts w v || mem_vless v l
  added [] w v done = ground arith
  added (x ∷ l) w v done = adds (x ∷ l) w v done

  changed :
      (c : Changes) (w : W) (v : Text)
      → (apply_inbound (vless del_users add_users) c w).1 ≡ ok tt
      → accepts (apply_inbound (vless del_users add_users) c w).0 v
        ≡ (accepts w v && not (mem_text v c.del_vless)) || mem_vless v c.add_vless
  unfolding apply_inbound
  changed c w v done =
      let deleting = unless_empty c.del_vless (del_users c.del_vless) w in
      let adding = unless_empty c.add_vless (add_users c.add_vless) in
      let (went, e) = and_then_ok deleting adding done in
      ap (λ o. accepts o.0 v) e
      ∙ added c.add_vless deleting.0 v (ap (λ o. o.1) (sym e) ∙ done)
      ∙ ap (λ b. b || mem_vless v c.add_vless) (deleted c.del_vless w v went)

  -- After `ApplyBox` without an error on a VLESS inbound, it accepts exactly the UUIDs of the users of
  -- the manager, if it did so before and no UUID stood for two numbers there. sing-box's `DelUsers`
  -- and `AddUsers` are taken to forget and to learn the UUIDs that they are given.
  pub apply_box_accepts :
      (enabled : Bool) (clock : Clock) (tag : Text) (us : List User) (m : UserManager) (w : W)
      (v : Text)
      → is_empty v ≡ false
      → IsMap m.users
      → IsDistinct m.users
      → accepts w v ≡ any_entry (has_uuid v) m.users
      → (apply_box enabled clock ((tag, vless del_users add_users) ∷ []) us (m, w)).1 ≡ ok tt
      → let after = (apply_box enabled clock ((tag, vless del_users add_users) ∷ []) us (m, w)).0 in
        accepts after.1 v ≡ any_entry (has_uuid v) after.0.users
  unfolding apply_inbounds
  apply_box_accepts enabled clock tag us m w v named unique distinct before done =
      let c = (planned enabled clock us m).0 in
      let one = apply_inbound (vless del_users add_users) c w in
      let (went, state, users, _) =
        apply_box_ok enabled clock ((tag, vless del_users add_users) ∷ []) us m w done in
      let alone = and_then_stop one in
      ap (λ w'. accepts w' v) (state ∙ ap (λ o. o.0) alone)
      ∙ changed c w v (sym (ap (λ o. o.1) alone) ∙ went)
      ∙ planned_lem enabled clock us m v named unique distinct (accepts w v) before
      ∙ ap (any_entry (has_uuid v)) (sym users)
