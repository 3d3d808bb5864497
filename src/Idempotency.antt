-- ===== src/Idempotency.antt =====
-- src/modules/idempotency/infrastructure/idempotency.repository.ts
use geek_interview.Base.{ℕ, Bool, true, false, not, ◌&&◌, Option, none, some, ◌∷◌, ◌==◌}
use geek_interview.Errors.{plain, claim_disappeared, record_not_completed, ok}
use geek_interview.Tables.{find, update_where, count_where}
use geek_interview.Store.{
  BookingResponse, IdempotencyRecord, IdempotencyStatus, processing, completed, Tx, pure, throw_if,
  or_throw, gets, ◌>>=◌,
}

pub data IdempotencyClaim : Type 0 where
  claimed existing : IdempotencyRecord → IdempotencyClaim

abbrev pub is_processing : IdempotencyStatus → Bool
is_processing processing = true
is_processing _ = false

abbrev pub is_completed : IdempotencyStatus → Bool
is_completed completed = true
is_completed _ = false

-- The unique key `(user_id, idempotency_key)`
abbrev pub has_key : ℕ → ℕ → IdempotencyRecord → Bool
has_key user_id key r = (r.user_id == user_id) && (r.idempotency_key == key)

abbrev pub new_record : ℕ → ℕ → ℕ → ℕ → IdempotencyRecord
new_record id user_id key request_hash = record {
  id = id;
  user_id = user_id;
  idempotency_key = key;
  request_hash = request_hash;
  status = processing;
  response_status = none;
  response_body = none;
}

abbrev pub insert_absent :
    IdempotencyRecord → Option IdempotencyRecord → Tx (Option IdempotencyRecord)
insert_absent r (some _) db = ok (none, db)
insert_absent r none db =
    ok (some r, record db { idempotency_records = r ∷ db.idempotency_records })

-- `INSERT … ON CONFLICT (user_id, idempotency_key) DO NOTHING RETURNING …`; the database makes `id`.
unfoldable pub insert_claim : ℕ → ℕ → ℕ → ℕ → Tx (Option IdempotencyRecord)
insert_claim id user_id key request_hash db =
    insert_absent (new_record id user_id key request_hash)
      (find (has_key user_id key) db.idempotency_records) db

abbrev pub claim_result : ℕ → ℕ → Option IdempotencyRecord → Tx IdempotencyClaim
claim_result user_id key (some r) = pure (claimed r)
claim_result user_id key none = do
  row ← gets (λ db. find (has_key user_id key) db.idempotency_records)
  r ← or_throw row (plain claim_disappeared)
  pure (existing r)

unfoldable pub claim : ℕ → ℕ → ℕ → ℕ → Tx IdempotencyClaim
claim id user_id key request_hash = do
  inserted ← insert_claim id user_id key request_hash
  claim_result user_id key inserted

-- `WHERE id = … AND status = 'PROCESSING'`
abbrev pub is_open : ℕ → IdempotencyRecord → Bool
is_open id r = (r.id == id) && is_processing r.status

abbrev pub completed_with : ℕ → BookingResponse → IdempotencyRecord → IdempotencyRecord
completed_with response_status body r = record r {
  status = completed;
  response_status = some response_status;
  response_body = some body;
}

-- The UPDATE, with the number of rows that it changed.
unfoldable pub close_record : ℕ → ℕ → BookingResponse → Tx ℕ
close_record id response_status body db = ok (
  count_where (is_open id) db.idempotency_records,
  record db {
    idempotency_records =
        update_where (is_open id) (completed_with response_status body) db.idempotency_records;
  },
)

unfoldable pub complete : ℕ → ℕ → BookingResponse → Tx (Unit {0})
complete id response_status body = do
  updated ← close_record id response_status body
  throw_if (not (updated == 1)) (plain record_not_completed)
