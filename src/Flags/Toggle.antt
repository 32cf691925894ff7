-- ===== src/Flags/Toggle.antt =====
-- A toggle from the admin panel, over a database that keeps what was written.
use tripbot.Base.{
  Text, same_text, same_text_eq, same_text_self, ◌≡◌, ◌≢◌, ◌↔◌, refl, sym, ◌∙◌, inl, inr, ℕ, Bool,
  true, false, Option, none, some, List, [], arith, ◌==◌, Bool-cases, Option-cases, if◌then◌else◌,
}
use tripbot.Flags.{
  EvalContext, FlagRow, fill, bool, PostgresClient, ToggleError, not_found, db_error, toggle_result,
  load_all, refresh, load_toggled, repo_set_enabled, set_enabled,
}
use tripbot.Flags.Served.{
  last_row, Grants, by_name, by_role, by_default, bool-Grants, bool-last_row,
}

-- The row with the written columns.
abbrev pub written : Bool → ℕ → FlagRow → FlagRow
written on now r = record r { enabled = on; updated_at = now }

abbrev pub row_after : Bool → Bool → ℕ → Option FlagRow → Option FlagRow
row_after here on now none = none
row_after here on now (some r) = if here then some (written on now r) else some r

same_text-apart : (xs ys : Text) → xs ≢ ys → same_text xs ys ≡ false
same_text-apart xs ys h = elim (Bool-cases (same_text xs ys)) [
  | inl same ↦ absurd (h (same_text_eq xs ys same))
  | inr other ↦ other
]

row_after-other :
    (here on : Bool) (now : ℕ) (r : Option FlagRow) → here ≡ false → row_after here on now r ≡ r
row_after-other here on now none h = refl
row_after-other here on now (some r) h = rw h refl

Grants-written :
    (on : Bool) (now : ℕ) (row : FlagRow) (ctx : EvalContext)
    → Grants (written on now row) ctx ↔ Grants (record row { enabled = on }) ctx
Grants-written on now row ctx = (
  λ g. elim g [
    | by_name a b ↦ by_name a b
    | by_role r a b ↦ by_role r a b
    | by_default a ↦ by_default a
  ],
  λ g. elim g [
    | by_name a b ↦ by_name a b
    | by_role r a b ↦ by_role r a b
    | by_default a ↦ by_default a
  ],
)

module _ {D : Type 0} (select : Text → D → Option (List FlagRow))
    (update : Text → Text → Bool → D → D × Option ℕ) where
  -- The database, as documented: an `UPDATE` that is served affects some row exactly when there is
  -- one of the key, and what is read afterwards are the rows of before, that one with the columns
  -- written at some time.
  pub record Writes : Type 0 where
    pub affects :
        (platform key : Text) (on : Bool) (d : D) (n : ℕ) (rows : List FlagRow)
        → select platform d ≡ some rows
        → (update platform key on d).1 ≡ some n
        → (n ≡ 0) ↔ (last_row key rows ≡ none)
    pub keeps :
        (platform key : Text) (on : Bool) (d : D) (n : ℕ) (rows after : List FlagRow) (other : Text)
        → select platform d ≡ some rows
        → (update platform key on d).1 ≡ some n
        → select platform (update platform key on d).0 ≡ some after
        → (now : ℕ) × (last_row other after
            ≡ row_after (same_text key other) on now (last_row other rows))

  -- How a toggle ended, with the client and the error that it leaves.
  pub data Ended (key : Text) (on : Bool) (d : D) (rows : List FlagRow) (c : PostgresClient)
      : PostgresClient → Option ToggleError → Type 0 where
    failed : (update c.platform key on d).1 ≡ none → Ended key on d rows c c (some db_error)
    missing : last_row key rows ≡ none → Ended key on d rows c c (some (not_found key))
    unread :
        (row : FlagRow)
        → last_row key rows ≡ some row
        → select c.platform (update c.platform key on d).0 ≡ none
        → Ended key on d rows c c none
    live :
        (row : FlagRow) (c' : PostgresClient)
        → last_row key rows ≡ some row
        → ((ctx : EvalContext)
            → (bool c'.flags key ctx ≡ true) ↔ Grants (record row { enabled = on }) ctx)
        → ((other : Text) (ctx : EvalContext)
            → other ≢ key
            → bool c'.flags other ctx ≡ bool (fill [] rows) other ctx)
        → Ended key on d rows c c' none

  module _ (h : Writes) (c : PostgresClient) (key : Text) (on : Bool) (d : D) (rows : List FlagRow)
      (s : select c.platform d ≡ some rows) where
    live-Ended :
        (n : ℕ) (after : List FlagRow) (row : FlagRow)
        → (update c.platform key on d).1 ≡ some n
        → select c.platform (update c.platform key on d).0 ≡ some after
        → last_row key rows ≡ some row
        → Ended key on d rows c (record c { flags = fill [] after }) none
    live-Ended n after row u a e =
        live row (record c { flags = fill [] after }) e
          (λ ctx.
            let (now, k) = h.keeps c.platform key on d n rows after key s u a in
            let own : last_row key after ≡ some (written on now row) =
              k ∙ rw (same_text_self key, e) refl in
            let read = bool-Grants key after (written on now row) ctx own in
            let same = Grants-written on now row ctx in
            (λ x. same.0 (read.0 x), λ g. read.1 (same.1 g)))
          (λ other ctx apart.
            let (now, k) = h.keeps c.platform key on d n rows after other s u a in
            bool-last_row other after rows ctx (
              k
              ∙ row_after-other (same_text key other) on now (last_row other rows)
                  (same_text-apart key other (λ e. apart (sym e)))))

    loaded-Ended :
        (n : ℕ) (row : FlagRow)
        → (update c.platform key on d).1 ≡ some n
        → last_row key rows ≡ some row
        → Ended key on d rows c (refresh select update (update c.platform key on d).0 c).0 none
    unfolding refresh load_all
    loaded-Ended n row u e =
        elim (Option-cases (select c.platform (update c.platform key on d).0)) [
          | inl gone ↦ rw (refresh, load_all, gone) (unread row e gone)
          | inr (after, a) ↦ rw (refresh, load_all, a) (live-Ended n after row u a e)
        ]

    result-Ended :
        (affected : Option ℕ)
        → (update c.platform key on d).1 ≡ affected
        → Ended key on d rows c
            (load_toggled select update
              (toggle_result key affected)
              (update c.platform key on d).0
              c)
            (toggle_result key affected)
    unfolding load_toggled
    result-Ended none u = failed u
    result-Ended (some n) u = elim (Option-cases (last_row key rows)) [
      | inl e ↦
          let nothing = (h.affects c.platform key on d n rows s u).1 e in rw nothing (missing e)
      | inr (row, e) ↦ elim (Bool-cases (n == 0)) [
        | inl nothing ↦
            let missed = (h.affects c.platform key on d n rows s u).0 (ground (arith, nothing)) in
            absurd (ground (arith, missed, e))
        | inr wrote ↦ rw wrote (loaded-Ended n row u e)
      ]
    ]

    -- Over a database that keeps what is written, as `Writes` says, and that answered a load before
    -- it, from any client: when the update fails, a toggle reports it, and when no row has the key,
    -- it reports that, and the client is left as it was. Else it reports no error. If the load
    -- after it fails too, the client is left; if not, the flag is granted by the allowlists of its
    -- row or as it was toggled, and every other one as the rows before the toggle say.
    pub toggle_outcome :
        let r = set_enabled select update key on d c in Ended key on d rows c r.0.1 r.1
    unfolding set_enabled repo_set_enabled
    toggle_outcome = result-Ended (update c.platform key on d).1 refl
