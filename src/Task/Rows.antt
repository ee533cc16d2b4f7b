-- ===== src/Task/Rows.antt =====
-- src/agent/task.rs: the table of the tasks, under an update and under a new row.
use bonsai_agent.Prelude.{
  true, false, ◌||◌, ◌≡◌, refl, String, Option, none, some, List, [], ◌∷◌, ◌++◌, str_eq, eq_iff,
  length, arith,
}
use bonsai_agent.Task.{
  TaskState, pending, in_progress, waiting_for_human, completed, failed, as_str, from_str,
  StepRecord, Row, Engine, has_id, update_rows, is_parent, log_of,
}

pub from_str-as_str : (s : TaskState) → from_str (as_str s) ≡ s
unfolding from_str as_str
from_str-as_str pending = refl
from_str-as_str in_progress = refl
from_str-as_str waiting_for_human = refl
from_str-as_str completed = refl
from_str-as_str failed = refl

-- `serde_json` reads what it wrote, and the empty log of a new row.
pub record ReadsLogs (e : Engine) : Type 0 where
  pub reads : (steps : List StepRecord) → e.from_json (e.to_json steps) ≡ some steps
  pub reads_none : e.from_json "[]" ≡ some []

-- The text of the state is one that stands for a state, and the log is read, with as many steps as
-- the row counts.
pub record IsRow (e : Engine) (r : Row) : Type 0 where
  pub state_text : as_str (from_str r.state) ≡ r.state
  pub logged : e.from_json r.step_log ≡ some (log_of e r.step_log)
  pub counted : length (log_of e r.step_log) ≡ r.step_current

abbrev pub AllRows : Engine → List Row → Type 0
AllRows e [] = Unit
AllRows e (r ∷ rs) = IsRow e r × AllRows e rs

-- No id stands for two rows.
abbrev pub Distinct : List Row → Type 0
Distinct [] = Unit
Distinct (r ∷ rs) = (has_id r.id rs ≡ false) × Distinct rs

-- The parents of the first rows are among the others.
abbrev pub HaveParents : List Row → List Row → Type 0
HaveParents [] others = Unit
HaveParents (r ∷ rs) others = (is_parent r.parent_id others ≡ true) × HaveParents rs others

pub record IsTable (e : Engine) (rows : List Row) : Type 0 where
  pub rows_read : AllRows e rows
  pub distinct : Distinct rows
  pub parents : HaveParents rows rows

-- An update that leaves the ids and the parents alone.
pub record IsHarmless (e : Engine) (f : Row → Row) : Type 0 where
  pub same_id : (r : Row) → (f r).id ≡ r.id
  pub same_parent : (r : Row) → (f r).parent_id ≡ r.parent_id
  pub keeps : (r : Row) → IsRow e r → IsRow e (f r)

module _ (e : Engine) (f : Row → Row) (h : IsHarmless e f) (id : String) where
  update-AllRows : (rs : List Row) → AllRows e rs → AllRows e (update_rows f id rs)
  update-AllRows [] all = tt
  update-AllRows (r ∷ rs) all = ground (arith, h.keeps r all.0, update-AllRows rs all.1)

  has_id-update : (k : String) (rs : List Row) → has_id k (update_rows f id rs) ≡ has_id k rs
  has_id-update k [] = refl
  has_id-update k (r ∷ rs) = ground (arith, h.same_id r, has_id-update k rs)

  update-Distinct : (rs : List Row) → Distinct rs → Distinct (update_rows f id rs)
  update-Distinct [] d = tt
  update-Distinct (r ∷ rs) d =
      ground (arith, h.same_id r, has_id-update r.id rs, update-Distinct rs d.1)

  is_parent-update :
      (p : Option String) (rs : List Row) → is_parent p (update_rows f id rs) ≡ is_parent p rs
  is_parent-update none rs = refl
  is_parent-update (some k) rs = has_id-update k rs

  update-HaveParents :
      (rs others : List Row)
      → HaveParents rs others
      → HaveParents (update_rows f id rs) (update_rows f id others)
  update-HaveParents [] others all = tt
  update-HaveParents (r ∷ rs) others all = ground (
    arith,
    h.same_parent r,
    is_parent-update r.parent_id others,
    is_parent-update (f r).parent_id others,
    update-HaveParents rs others all.1,
  )

  pub update-IsTable : (rs : List Row) → IsTable e rs → IsTable e (update_rows f id rs)
  update-IsTable rs t = record {
    rows_read = update-AllRows rs t.rows_read;
    distinct = update-Distinct rs t.distinct;
    parents = update-HaveParents rs rs t.parents;
  }

AllRows-append :
    (e : Engine) (rs : List Row) (r : Row) → AllRows e rs → IsRow e r → AllRows e (rs ++ r ∷ [])
AllRows-append e [] r all h = (h, tt)
AllRows-append e (x ∷ rs) r all h = (all.0, AllRows-append e rs r all.1 h)

pub has_id-append :
    (k : String) (rs : List Row) (r : Row)
    → has_id k (rs ++ r ∷ []) ≡ (has_id k rs || str_eq r.id k)
has_id-append k [] r = ground arith
has_id-append k (x ∷ rs) r = ground (arith, has_id-append k rs r)

Distinct-append :
    (rs : List Row) (r : Row) → Distinct rs → has_id r.id rs ≡ false → Distinct (rs ++ r ∷ [])
Distinct-append [] r d new = (refl, tt)
Distinct-append (x ∷ rs) r d new =
    ground
      (arith, has_id-append x.id rs r, eq_iff r.id x.id, eq_iff x.id r.id, Distinct-append rs r d.1)

is_parent-append :
    (p : Option String) (rs : List Row) (r : Row)
    → is_parent p rs ≡ true
    → is_parent p (rs ++ r ∷ []) ≡ true
is_parent-append none rs r h = refl
is_parent-append (some k) rs r h = ground (arith, has_id-append k rs r)

HaveParents-append :
    (rs others : List Row) (r s : Row)
    → HaveParents rs others
    → is_parent r.parent_id others ≡ true
    → HaveParents (rs ++ r ∷ []) (others ++ s ∷ [])
HaveParents-append [] others r s all h = (is_parent-append r.parent_id others s h, tt)
HaveParents-append (x ∷ rs) others r s all h =
    (is_parent-append x.parent_id others s all.0, HaveParents-append rs others r s all.1 h)

pub append-IsTable :
    (e : Engine) (rs : List Row) (r : Row)
    → IsTable e rs
    → IsRow e r
    → has_id r.id rs ≡ false
    → is_parent r.parent_id rs ≡ true
    → IsTable e (rs ++ r ∷ [])
append-IsTable e rs r t h new parent = record {
  rows_read = AllRows-append e rs r t.rows_read h;
  distinct = Distinct-append rs r t.distinct new;
  parents = HaveParents-append rs rs r r t.parents parent;
}
