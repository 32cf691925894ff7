-- ===== src/Flags/Tests.antt =====
-- The flags over a database that is one platform's table, or is down.
use mathlib.Core.List.Permᴰ
use mathlib.Core.Option.{some-injective}
use tripbot.Base.{
  Text, codes, same_text, same_text_eq, ◌≡◌, ◌↔◌, refl, subst, ap, inl, inr, ℕ, Bool, true, false,
  Option, none, some, List, [], ◌∷◌, arith, count, Bool-cases, Option-cases, if◌then◌else◌,
}
use tripbot.Flags.{
  EvalContext, FlagRow, FlagMap, to_flag, lookup, fill, bool, evaluate, PostgresClient, refresh,
  load_all, new_client, Event, polled, toggled, set_enabled, run, snapshot, insert_flag, sort_flags,
  store, step, load_toggled, repo_set_enabled,
}
use tripbot.Flags.Served.{last_row, last_served, Granted, run-Granted}
use tripbot.Flags.Toggle.{written, row_after, Writes, Ended, toggle_outcome}
use tripbot.Flags.Listing.{listed, IsAscending, snapshot-IsAscending}

abbrev Table : Type 0
Table = Option (List FlagRow)

abbrev table_select : Text → Table → Option (List FlagRow)
table_select platform d = d

abbrev write_rows : Text → Bool → List FlagRow → List FlagRow
write_rows key on [] = []
write_rows key on (r ∷ rs) =
    (if same_text key r.key then written on 7 r else r) ∷ write_rows key on rs

abbrev table_update : Text → Text → Bool → Table → Table × Option ℕ
table_update platform key on none = (none, none)
table_update platform key on (some rows) =
    (some (write_rows key on rows), some (count (λ r. same_text r.key key) rows))

count-last_row :
    (key : Text) (rows : List FlagRow)
    → (count (λ r. same_text r.key key) rows ≡ 0) ↔ (last_row key rows ≡ none)
count-last_row key [] = (λ h. refl, λ h. refl)
count-last_row key (r ∷ rs) =
    let (to, from) = count-last_row key rs in
    elim (Bool-cases (same_text r.key key)) [
      | inl same ↦ elim (Option-cases (last_row key rs)) [
        | inl e ↦ (λ h. absurd (ground (arith, same, h)), λ h. absurd (ground (arith, same, h, e)))
        | inr (x, e) ↦ (λ h. absurd (ground (arith, same, h)), λ h. absurd (ground (arith, h, e)))
      ]
      | inr other ↦ elim (Option-cases (last_row key rs)) [
        | inl e ↦ (λ h. ground (arith, other, e), λ h. ground (arith, other, from e))
        | inr (x, e) ↦ (
          λ h. absurd (ground (arith, other, e, to (ground (arith, other, h)))),
          λ h. absurd (ground (arith, h, e)),
        )
      ]
    ]

last_row-write_rows :
    (key other : Text) (on : Bool) (rows : List FlagRow)
    → last_row other (write_rows key on rows)
      ≡ row_after (same_text key other) on 7 (last_row other rows)
last_row-write_rows key other on [] = refl
last_row-write_rows key other on (r ∷ rs) = elim (Option-cases (last_row other rs)) [
  | inr (x, e) ↦ elim (Bool-cases (same_text key other)) [
    | inl here ↦ ground (arith, e, here, last_row-write_rows key other on rs)
    | inr there ↦ ground (arith, e, there, last_row-write_rows key other on rs)
  ]
  | inl e ↦ elim (Bool-cases (same_text r.key other)) [
    | inl own ↦
        let k : same_text key r.key ≡ same_text key other =
          ap (same_text key) (same_text_eq r.key other own) in
        ground (arith, e, own, k, last_row-write_rows key other on rs)
    | inr not_own ↦ ground (arith, e, not_own, last_row-write_rows key other on rs)
  ]
]

affects_table :
    (platform key : Text) (on : Bool) (d : Table) (n : ℕ) (rows : List FlagRow)
    → d ≡ some rows
    → (table_update platform key on d).1 ≡ some n
    → (n ≡ 0) ↔ (last_row key rows ≡ none)
affects_table platform key on none n rows s u = absurd (ground (arith, s))
affects_table platform key on (some t) n rows s u =
    subst (λ x. (x ≡ 0) ↔ (last_row key rows ≡ none))
      (some-injective (count (λ r. same_text r.key key) t) n u)
      (subst (λ x. (count (λ r. same_text r.key key) t ≡ 0) ↔ (last_row key x ≡ none))
        (some-injective t rows s) (count-last_row key t))

keeps_table :
    (platform key : Text) (on : Bool) (d : Table) (rows after : List FlagRow) (other : Text)
    → d ≡ some rows
    → (table_update platform key on d).0 ≡ some after
    → last_row other after ≡ row_after (same_text key other) on 7 (last_row other rows)
keeps_table platform key on none rows after other s a = absurd (ground (arith, s))
keeps_table platform key on (some t) rows after other s a =
    subst (λ x. last_row other x ≡ row_after (same_text key other) on 7 (last_row other rows))
      (some-injective (write_rows key on t) after a)
      (subst
        (λ x.
          last_row other (write_rows key on t)
          ≡ row_after (same_text key other) on 7 (last_row other x))
        (some-injective t rows s) (last_row-write_rows key other on t))

abbrev fuel_flag : FlagRow
fuel_flag = record {
  key = codes "fuel";
  platform = codes "twitch";
  description = [];
  enabled = false;
  enabled_for_usernames = codes "dana" ∷ [];
  enabled_for_roles = codes "vip" ∷ [];
  target_removal_date = 0;
  created_at = 0;
  updated_at = 0;
}

abbrev maps_flag : FlagRow
maps_flag = record fuel_flag { key = codes "maps"; enabled_for_roles = [] }

abbrev vip : EvalContext
vip = record { username = codes "kim"; roles = codes "vip" ∷ []; channel = []; env = [] }

abbrev rows : List FlagRow
rows = fuel_flag ∷ maps_flag ∷ []

-- The map, walked backwards.
abbrev backwards : FlagMap
backwards = (codes "maps", to_flag maps_flag) ∷ (codes "fuel", to_flag fuel_flag) ∷ []

-- A toggle of one flag, then a poll that finds the database down.
abbrev toggle_and_outage : List (Event Table)
toggle_and_outage = toggled (codes "maps") true (some rows) ∷ polled none ∷ []

abbrev client : PostgresClient
client = record { platform = codes "twitch"; flags = fill [] rows }

table-Writes : Writes table_select table_update
table-Writes = record {
  affects = λ platform key on d n found s u. affects_table platform key on d n found s u;
  keeps = λ platform key on d n found after other s u a.
      (7, keeps_table platform key on d found after other s a);
}

run-Granted_example :
    (bool (run table_select table_update client toggle_and_outage).flags (codes "maps") vip ≡ true)
    ↔ Granted
        (codes "maps")
        (last_served table_select table_update (codes "twitch") rows toggle_and_outage)
        vip
unfolding new_client refresh load_all fill store
run-Granted_example =
    run-Granted table_select table_update (codes "twitch") (some rows) client toggle_and_outage
      (codes "maps") vip refl

-- The toggled flag is granted, and was not before.
maps_toggled :
    (bool client.flags (codes "maps") vip ≡ false)
    × (bool (run table_select table_update client toggle_and_outage).flags (codes "maps") vip
        ≡ true)
unfolding bool lookup fill store evaluate run step refresh load_all set_enabled load_toggled
    repo_set_enabled
maps_toggled = (refl, refl)

toggle_outcome_example :
    let r = set_enabled table_select table_update (codes "maps") true (some rows) client in
    Ended table_select table_update (codes "maps") true (some rows) rows client r.0.1 r.1
toggle_outcome_example =
    toggle_outcome table_select table_update table-Writes client (codes "maps") true (some rows)
      rows refl

snapshot-IsAscending_example :
    IsAscending (snapshot backwards)
    × ((k : Text) → listed k (snapshot backwards) ≡ lookup k (fill [] rows))
unfolding fill store
snapshot-IsAscending_example = snapshot-IsAscending rows backwards (Permᴰ.swap refl refl)

fuel_first : snapshot backwards ≡ to_flag fuel_flag ∷ to_flag maps_flag ∷ []
unfolding snapshot sort_flags insert_flag
fuel_first = refl
