-- ===== src/Lifecycle/Rows.antt =====
-- A step that leaves the outbox alone, and a step that adds a message to it.
use sd_platform.Common.{
  ==→eq, eq→==, ◌≡◌, refl, ap, sym, subst, ◌∙◌, List, [], ◌∷◌, ◌++◌, none, some, arith, inl, inr,
  if◌then◌else◌, ◌==◌, Option-cases, Bool-cases, IsKeyed, first_where, first_where-append, is_none,
}
use sd_platform.Db.{Uuid, Db, OutboxMessage, MessageState}
use sd_platform.OutboxStore.{message_of}
use sd_platform.Lifecycle.{Kind, Move, status, quiet, queueing}
use sd_platform.Lifecycle.Steps.{Keyed, IsNew}

-- What a step keeps and makes, as one statement on both tables.
abbrev pub Refines : Kind → Db → Db → Type 0
Refines kind db db' =
    ((k : Uuid) → Move kind k (status k db.outbox_message) (status k db'.outbox_message))
    × Keyed db'

-- A step that leaves the outbox alone.
pub same_rows :
    (db db' : Db) → Keyed db → db'.outbox_message ≡ db.outbox_message → Refines quiet db db'
same_rows db db' keyed same =
    (λ k. ap (status k) same, subst (IsKeyed (λ (m : OutboxMessage). m.outbox_id)) (sym same) keyed)

append-IsKeyed :
    (rows : List OutboxMessage) (m : OutboxMessage)
    → IsKeyed (λ (m : OutboxMessage). m.outbox_id) rows
    → message_of m.outbox_id rows ≡ none
    → IsKeyed (λ (m : OutboxMessage). m.outbox_id) (rows ++ m ∷ [])
unfolding first_where
append-IsKeyed [] m keyed absent = (refl, tt)
append-IsKeyed (r ∷ rows) m keyed absent = elim (Bool-cases (r.outbox_id == m.outbox_id)) [
  | inl same ↦ absurd (cc (rw (same, first_where) at absent))
  | inr other ↦ (
    first_where-append (λ x. x.outbox_id == r.outbox_id) rows (m ∷ []) ∙ rw keyed.0 (ground arith),
    append-IsKeyed rows m keyed.1 (rw (other, first_where) at absent),
  )
]

-- A step that adds one pending message.
pub one_row :
    (db db' : Db) (m : OutboxMessage)
    → Keyed db
    → IsNew m.outbox_id db
    → m.state ≡ MessageState.pending
    → db'.outbox_message ≡ db.outbox_message ++ m ∷ []
    → Refines (queueing m.outbox_id) db db'
unfolding first_where
one_row db db' m keyed absent pending same = (
  λ k.
      subst (λ rows. Move (queueing m.outbox_id) k (status k db.outbox_message) (status k rows))
        (sym same) (moved k),
  subst (IsKeyed (λ (m : OutboxMessage). m.outbox_id)) (sym same)
      (append-IsKeyed db.outbox_message m keyed absent),
)
  where
    read :
        (k : Uuid)
        → message_of k (db.outbox_message ++ m ∷ []) ≡ (
            if is_none (message_of k db.outbox_message)
            then message_of k (m ∷ [])
            else message_of k db.outbox_message)
    read k = first_where-append (λ x. x.outbox_id == k) db.outbox_message (m ∷ [])

    moved :
        (k : Uuid)
        → Move
            (queueing m.outbox_id)
            k
            (status k db.outbox_message)
            (status k (db.outbox_message ++ m ∷ []))
    moved k = elim (Bool-cases (m.outbox_id == k)) [
      | inl hit ↦
          let same : k ≡ m.outbox_id = sym (==→eq m.outbox_id k hit) in
          let free : message_of k db.outbox_message ≡ none =
            ap (λ i. message_of i db.outbox_message) same ∙ absent in
          inr (same, rw free refl, rw (read k) (rw free (rw (hit, first_where) (ap some pending))))
      | inr miss ↦ inl (
        λ same. cc (eq→== m.outbox_id k (sym same), miss),
        elim (Option-cases (message_of k db.outbox_message)) [
          | inl free ↦ rw (read k) (rw free (rw (miss, first_where) refl))
          | inr (r, there) ↦ rw (read k) (rw there refl)
        ],
      )
    ]
