-- ===== src/Db/Keys.antt =====
-- Identifiers, the values inside JSON columns, and the keys that make an external command unique.
use sd_platform.Common.{
  ℕ, String, Bool, false, ◌&&◌, List, Option, none, some, Datetime, str_eq, ◌==◌, ◌≡◌, refl, true,
  eq→==, eq_iff,
}

abbrev pub Uuid : Type 0
Uuid = ℕ

-- A value of a JSON object: a `None`, a number, a text, a UUID's text, or a time in ISO format.
pub data Scalar : Type 0 where
  null : Scalar
  num : ℕ → Scalar
  text : String → Scalar
  uuid : Uuid → Scalar
  iso : Datetime → Scalar

abbrev pub Json : Type 0
Json = List (String × Scalar)

-- f"submission:{command_id}:oa.complete_pending", f"scheduler-trigger:{trigger_id}" and
-- f"urge:{rule_version}:{task_id}:{target_id}:{as_of}:{level}"
pub data DedupKey : Type 0 where
  submission : Uuid → DedupKey
  scheduler_trigger : Uuid → DedupKey
  urge : (rule_version : String) (task_id target_id as_of : ℕ) (level : String) → DedupKey

abbrev pub same_key : DedupKey → DedupKey → Bool
same_key (submission a) (submission b) = a == b
same_key (scheduler_trigger a) (scheduler_trigger b) = a == b
same_key (urge v t p d l) (urge v' t' p' d' l') =
    str_eq v v' && (t == t' && (p == p' && (d == d' && str_eq l l')))
same_key _ _ = false

pub same_key_refl : (k : DedupKey) → same_key k k ≡ true
same_key_refl (DedupKey.submission a) = eq→== a a refl
same_key_refl (DedupKey.scheduler_trigger a) = eq→== a a refl
same_key_refl (DedupKey.urge v t p d l) =
    rw ((eq_iff v v).1 refl)
      (rw (eq→== t t refl) (rw (eq→== p p refl) (rw (eq→== d d refl) ((eq_iff l l).1 refl))))

-- `column == value` in SQL, where the column may be null.
abbrev pub is_value : Option ℕ → ℕ → Bool
is_value none k = false
is_value (some j) k = j == k

abbrev pub is_text : Option String → String → Bool
is_text none k = false
is_text (some j) k = str_eq j k
