-- ===== src/Flags/Served.antt =====
-- What a flag reads, by the rows of the last load that the database served.
use mathlib.Core.Option.{some-injective}
use tripbot.Base.{
  Text, same_text, same_text_eq, same_text_self, mem_text, mem_text-OneOf, OneOf, ◌≡◌, ◌≢◌, ◌↔◌,
  refl, sym, subst, ap, ◌∙◌, inl, inr, ℕ, Bool, true, false, not, ◌&&◌, Option, none, some, List,
  [], ◌∷◌, arith, ◌==◌, Bool-cases, Option-cases, if◌then◌else◌,
}
use tripbot.Flags.{
  EvalContext, Flag, FlagRow, to_flag, FlagMap, shares, is_blank, evaluate, lookup, store, fill,
  bool, PostgresClient, load_all, refresh, new_client, toggle_result, load_toggled,
  repo_set_enabled, set_enabled, Event, polled, toggled, step, run,
}

-- The last row of a key.
abbrev pub last_row : Text → List FlagRow → Option FlagRow
last_row k [] = none
last_row k (r ∷ rs) = elim (last_row k rs) [
  | some later ↦ some later
  | none ↦ if same_text r.key k then some r else none
]

pub lookup-store :
    (k j : Text) (f : Flag) (m : FlagMap)
    → lookup j (store k f m) ≡ (if same_text k j then some f else lookup j m)
unfolding lookup store
lookup-store k j f [] = refl
lookup-store k j f ((i, g) ∷ m) = elim (Bool-cases (same_text i k)) [
  | inr other ↦ elim (Bool-cases (same_text k j)) [
    | inr b ↦ ground (arith, other, b, lookup-store k j f m)
    | inl b ↦
        let e = same_text_eq k j b in
        ground (arith, b, other, subst (λ x. same_text i x ≡ false) e other, lookup-store k j f m)
  ]
  | inl same ↦
      let e = same_text_eq i k same in
      let c : same_text i j ≡ same_text k j = ap (λ x. same_text x j) e in ground (arith, same, c)
]

abbrev flag_of : Option FlagRow → Option Flag → Option Flag
flag_of none before = before
flag_of (some r) before = some (to_flag r)

flag_of-later :
    (r : FlagRow) (own : Bool) (later : Option FlagRow) (before : Option Flag)
    → flag_of later (if own then some (to_flag r) else before)
      ≡ flag_of (elim later [ some x ↦ some x | none ↦ if own then some r else none ]) before
flag_of-later r own (some x) before = refl
flag_of-later r true none before = refl
flag_of-later r false none before = refl

lookup-fill :
    (k : Text) (rs : List FlagRow) (m : FlagMap)
    → lookup k (fill m rs) ≡ flag_of (last_row k rs) (lookup k m)
unfolding fill
lookup-fill k [] m = refl
lookup-fill k (r ∷ rs) m =
    lookup-fill k rs (store r.key (to_flag r) m)
    ∙ ap (flag_of (last_row k rs)) (lookup-store r.key k (to_flag r) m)
    ∙ flag_of-later r (same_text r.key k) (last_row k rs) (lookup k m)

-- Why a row grants a flag: the name, a role, or the default.
pub data Grants (r : FlagRow) (ctx : EvalContext) : Type 0 where
  by_name : ctx.username ≢ [] → OneOf ctx.username r.enabled_for_usernames → Grants r ctx
  by_role : (role : Text) → OneOf role r.enabled_for_roles → OneOf role ctx.roles → Grants r ctx
  by_default : r.enabled ≡ true → Grants r ctx

mem_text-true : (x : Text) (ys : List Text) → OneOf x ys → mem_text x ys ≡ true
mem_text-true x [] h = elim h [ ]
mem_text-true x (y ∷ ys) (inl e) =
    let s : same_text y x ≡ true = rw e (same_text_self x) in ground (arith, s)
mem_text-true x (y ∷ ys) (inr h) = ground (arith, mem_text-true x ys h)

shares-common :
    (want have : List Text)
    → shares want have ≡ true
    → (role : Text) × OneOf role want × OneOf role have
shares-common [] have h = ground (arith, h)
shares-common (w ∷ want) have h = elim (Bool-cases (mem_text w have)) [
  | inl hit ↦ (w, inl refl, mem_text-OneOf w have hit)
  | inr miss ↦
      let (role, a, b) = shares-common want have (ground (arith, h, miss)) in (role, inr a, b)
]

shares-true :
    (role : Text) (want have : List Text)
    → OneOf role want
    → OneOf role have
    → shares want have ≡ true
shares-true role [] have h b = elim h [ ]
shares-true role (w ∷ want) have (inl e) b =
    let m : mem_text w have ≡ true = rw e (mem_text-true role have b) in ground (arith, m)
shares-true role (w ∷ want) have (inr a) b = ground (arith, shares-true role want have a b)

is_blank-nonempty : (t : Text) → t ≢ [] → is_blank t ≡ false
is_blank-nonempty [] h = absurd (h refl)
is_blank-nonempty (c ∷ cs) h = refl

nonempty : (t : Text) → is_blank t ≡ false → t ≢ []
nonempty [] h = ground (arith, h)
nonempty (c ∷ cs) h = λ e. ground (arith, e)

by_allowlist :
    (blank listed shared on : Bool)
    → shared ≡ false
    → on ≡ false
    → (if not blank && listed then true else (if shared then true else on)) ≡ true
    → (blank ≡ false) × (listed ≡ true)
by_allowlist blank listed shared on a b h = (ground (arith, a, b, h), ground (arith, a, b, h))

evaluate-Grants :
    (r : FlagRow) (ctx : EvalContext) → (evaluate (to_flag r) ctx ≡ true) → Grants r ctx
unfolding evaluate
evaluate-Grants r ctx h = elim (Bool-cases r.enabled) [
  | inl on ↦ by_default on
  | inr off ↦ elim (Bool-cases (shares r.enabled_for_roles ctx.roles)) [
    | inl hit ↦
        let (role, a, b) = shares-common r.enabled_for_roles ctx.roles hit in by_role role a b
    | inr miss ↦
        let named : (is_blank ctx.username ≡ false)
            × (mem_text ctx.username r.enabled_for_usernames ≡ true) =
          by_allowlist (is_blank ctx.username) (mem_text ctx.username r.enabled_for_usernames)
            (shares r.enabled_for_roles ctx.roles) r.enabled miss off h in
        by_name (nonempty ctx.username named.0)
          (mem_text-OneOf ctx.username r.enabled_for_usernames named.1)
  ]
]

Grants-evaluate : (r : FlagRow) (ctx : EvalContext) → Grants r ctx → evaluate (to_flag r) ctx ≡ true
unfolding evaluate
Grants-evaluate r ctx (by_name a b) =
    ground (
      arith,
      is_blank-nonempty ctx.username a,
      mem_text-true ctx.username r.enabled_for_usernames b,
    )
Grants-evaluate r ctx (by_role role a b) =
    ground (arith, shares-true role r.enabled_for_roles ctx.roles a b)
Grants-evaluate r ctx (by_default a) = ground (arith, a)

-- The row of the key that counts grants the flag to the viewer.
pub record Granted (key : Text) (rows : List FlagRow) (ctx : EvalContext) : Type 0 where
  pub row : FlagRow
  pub is_last : last_row key rows ≡ some row
  pub grants : Grants row ctx

abbrev verdict : EvalContext → Option Flag → Bool
verdict ctx none = false
verdict ctx (some f) = evaluate f ctx

bool-verdict :
    (flags : FlagMap) (key : Text) (ctx : EvalContext)
    → bool flags key ctx ≡ verdict ctx (lookup key flags)
unfolding bool
bool-verdict flags key ctx = elim (lookup key flags) [ none ↦ refl | some f ↦ refl ]

bool-fill :
    (rows : List FlagRow) (key : Text) (ctx : EvalContext)
    → bool (fill [] rows) key ctx ≡ verdict ctx (flag_of (last_row key rows) none)
unfolding lookup
bool-fill rows key ctx =
    bool-verdict (fill [] rows) key ctx ∙ ap (verdict ctx) (lookup-fill key rows [])

verdict-Granted :
    (key : Text) (rows : List FlagRow) (ctx : EvalContext) (last : Option FlagRow)
    → last_row key rows ≡ last
    → (verdict ctx (flag_of last none) ≡ true) ↔ Granted key rows ctx
verdict-Granted key rows ctx none e = (λ h. ground (arith, h), λ g. ground (arith, e, g.is_last))
verdict-Granted key rows ctx (some r) e = (
  λ h. record { row = r; is_last = e; grants = evaluate-Grants r ctx h },
  λ g.
      Grants-evaluate r ctx
        (subst (λ x. Grants x ctx) (some-injective g.row r (sym g.is_last ∙ e)) g.grants),
)

-- The answers go by the row that counts alone.
pub bool-last_row :
    (key : Text) (rows rows' : List FlagRow) (ctx : EvalContext)
    → last_row key rows ≡ last_row key rows'
    → bool (fill [] rows) key ctx ≡ bool (fill [] rows') key ctx
bool-last_row key rows rows' ctx e =
    bool-fill rows key ctx
    ∙ ap (λ r. verdict ctx (flag_of r none)) e
    ∙ sym (bool-fill rows' key ctx)

pub bool-Grants :
    (key : Text) (rows : List FlagRow) (row : FlagRow) (ctx : EvalContext)
    → last_row key rows ≡ some row
    → (bool (fill [] rows) key ctx ≡ true) ↔ Grants row ctx
bool-Grants key rows row ctx e =
    rw (bool-fill rows key ctx, e) (evaluate-Grants row ctx, Grants-evaluate row ctx)

-- For any rows of a platform.
pub bool-Granted :
    (rows : List FlagRow) (key : Text) (ctx : EvalContext)
    → (bool (fill [] rows) key ctx ≡ true) ↔ Granted key rows ctx
bool-Granted rows key ctx =
    rw (bool-fill rows key ctx) (verdict-Granted key rows ctx (last_row key rows) refl)

-- The client after a load.
abbrev loaded : Text → List FlagRow → PostgresClient
loaded platform rows = record { platform = platform; flags = fill [] rows }

module _ {D : Type 0} (select : Text → D → Option (List FlagRow))
    (update : Text → Text → Bool → D → D × Option ℕ) where
  abbrev reload : Text → D → List FlagRow → List FlagRow
  reload platform d rows = elim (select platform d) [ none ↦ rows | some new ↦ new ]

  -- A write that changed a row is followed by a load.
  abbrev after_write : Text → D → Option ℕ → List FlagRow → List FlagRow
  after_write platform d none rows = rows
  after_write platform d (some affected) rows =
      if affected == 0 then rows else reload platform d rows

  -- The rows of the last load that was served.
  abbrev pub last_served : Text → List FlagRow → List (Event D) → List FlagRow
  last_served platform rows [] = rows
  last_served platform rows (polled d ∷ es) = last_served platform (reload platform d rows) es
  last_served platform rows (toggled key on d ∷ es) =
      let w = update platform key on d in
      last_served platform (after_write platform w.0 w.1 rows) es

  refresh-loaded :
      (platform : Text) (rows : List FlagRow) (d : D)
      → (refresh select update d (loaded platform rows)).0
        ≡ loaded platform (reload platform d rows)
  unfolding refresh load_all
  refresh-loaded platform rows d = elim (Option-cases (select platform d)) [
    | inl e ↦ rw (refresh, load_all, reload, e) refl
    | inr (new, e) ↦ rw (refresh, load_all, reload, e) refl
  ]

  load_toggled-loaded :
      (platform key : Text) (rows : List FlagRow) (d : D) (affected : Option ℕ)
      → load_toggled select update (toggle_result key affected) d (loaded platform rows)
        ≡ loaded platform (after_write platform d affected rows)
  unfolding load_toggled
  load_toggled-loaded platform key rows d none = refl
  load_toggled-loaded platform key rows d (some n) = elim (Bool-cases (n == 0)) [
    | inl nothing ↦ rw nothing refl
    | inr wrote ↦ rw wrote (refresh-loaded platform rows d)
  ]

  run-loaded :
      (platform : Text) (rows : List FlagRow) (es : List (Event D))
      → run select update (loaded platform rows) es ≡ loaded platform (last_served platform rows es)
  unfolding run step set_enabled repo_set_enabled
  run-loaded platform rows [] = refl
  run-loaded platform rows (polled d ∷ es) =
      ap (λ c. run select update c es) (refresh-loaded platform rows d)
      ∙ run-loaded platform (reload platform d rows) es
  run-loaded platform rows (toggled key on d ∷ es) =
      let w = update platform key on d in
      ap (λ c. run select update c es) (load_toggled-loaded platform key rows w.0 w.1)
      ∙ run-loaded platform (after_write platform w.0 w.1 rows) es

  -- The client that a start leaves, over the database that it finds.
  new_client-loaded :
      (platform : Text) (d : D) (c : PostgresClient)
      → new_client select update platform d ≡ some c
      → c ≡ loaded platform (reload platform d [])
  unfolding new_client refresh load_all
  new_client-loaded platform d c h = elim (Option-cases (select platform d)) [
    | inl e ↦ ground (arith, e, h)
    | inr (new, e) ↦ rw (reload, e) (some-injective c (loaded platform new) (ground (arith, e, h)))
  ]

  -- From a start that is served, over any polls and toggles, each on the database that it finds,
  -- whether the database serves them or not: a viewer gets a flag exactly when the rows of the last
  -- load that was served have one of the key, and the one that counts grants it, by the viewer's
  -- name, by a role or by its default.
  pub run-Granted :
      (platform : Text) (d : D) (c : PostgresClient) (es : List (Event D)) (key : Text)
      (ctx : EvalContext)
      → new_client select update platform d ≡ some c
      → let rows = last_served platform (reload platform d []) es in
        (bool (run select update c es).flags key ctx ≡ true) ↔ Granted key rows ctx
  run-Granted platform d c es key ctx h =
      let rows = reload platform d [] in
      rw (new_client-loaded platform d c h, run-loaded platform rows es)
        (bool-Granted (last_served platform rows es) key ctx)
