-- ===== src/Treasury/OpsStore.antt =====
-- src/treasury/opsStore.ts: the log of the operator's transactions, table `treasury_ops`. The id
-- that `newOpId()` draws is an argument of `record_op`. Rows are kept newest insert first.
pub mod Outcome
use lp_agent.Prelude.{
  ℕ, zero, suc, String, Bool, true, false, ◌&&◌, Option, none, some, List, [], ◌∷◌, ◌==◌, leb,
  if◌then◌else◌,
}
use lp_agent.Prelude.Int.{ℤ}
use lp_agent.Table.{select, update}
use lp_agent.Table.Filter.{filter}

pub data OpKind : Type 0 where
  sweep transfer swap : OpKind

pub data OpStatus : Type 0 where
  pending succeeded failed : OpStatus

pub record TreasuryOp : Type 0 where
  pub id : String
  pub op_kind : OpKind
  pub from_address : String
  pub to_address : Option String
  pub coin_type_in : String
  pub amount_in : ℤ
  pub coin_type_out : Option String
  pub amount_out : Option ℤ
  pub digest : Option String
  pub status : OpStatus
  pub error : Option String
  pub initiated_by : String
  pub created_at_ms : ℕ

abbrev pub op_key : TreasuryOp → String
op_key op = op.id

abbrev pub kind_eqb : OpKind → OpKind → Bool
kind_eqb sweep sweep = true
kind_eqb transfer transfer = true
kind_eqb swap swap = true
kind_eqb _ _ = false

abbrev pub status_eqb : OpStatus → OpStatus → Bool
status_eqb pending pending = true
status_eqb succeeded succeeded = true
status_eqb failed failed = true
status_eqb _ _ = false

pub record RecordOpArgs : Type 0 where
  pub op_kind : OpKind
  pub from_address : String
  pub to_address : Option String
  pub coin_type_in : String
  pub amount_in : ℤ
  pub coin_type_out : Option String
  pub amount_out : Option ℤ
  pub initiated_by : String

-- Nothing where SQLite refuses the id.
unfoldable pub record_op :
    String → RecordOpArgs → ℕ → List TreasuryOp → Option (String × List TreasuryOp)
record_op id args now_ms ops = elim (select op_key id ops) [
  | some _ ↦ none
  | none ↦ some (
    id,
    (record {
      id = id;
      op_kind = args.op_kind;
      from_address = args.from_address;
      to_address = args.to_address;
      coin_type_in = args.coin_type_in;
      amount_in = args.amount_in;
      coin_type_out = args.coin_type_out;
      amount_out = args.amount_out;
      digest = none;
      status = pending;
      error = none;
      initiated_by = args.initiated_by;
      created_at_ms = now_ms;
    })
        ∷ ops,
  )
]

-- `recordOp` of src/treasury/store.ts: the row as it stands, or nothing where SQLite refuses the id.
unfoldable pub insert_op : TreasuryOp → List TreasuryOp → Option (List TreasuryOp)
insert_op op ops = elim (select op_key op.id ops) [ some _ ↦ none | none ↦ some (op ∷ ops) ]

-- `OpOutcome` is the status that the code may set: not pending.
pub data OpOutcome : Type 0 where
  did_succeed did_fail : OpOutcome

abbrev pub status_of : OpOutcome → OpStatus
status_of did_succeed = succeeded
status_of did_fail = failed

pub record MarkOpResultArgs : Type 0 where
  pub status : OpOutcome
  pub digest : Option String
  pub amount_out : Option ℤ
  pub error : Option String

-- SQL's COALESCE
abbrev pub coalesce : {A : Type 0} → Option A → Option A → Option A
coalesce none old = old
coalesce (some x) old = some x

-- SET …, where `status = 'pending'`
unfoldable pub set_result : MarkOpResultArgs → TreasuryOp → TreasuryOp
set_result result op = elim op.status [
  | pending ↦ record op {
    status = status_of result.status;
    digest = coalesce result.digest op.digest;
    amount_out = coalesce result.amount_out op.amount_out;
    error = result.error;
  }
  | _ ↦ op
]

unfoldable pub mark_op_result : String → MarkOpResultArgs → List TreasuryOp → List TreasuryOp
mark_op_result id result = update op_key id (set_result result)

pub record ListOpsFilter : Type 0 where
  pub op_kind : Option OpKind
  pub from_address : Option String
  pub status : Option OpStatus
  pub limit : Option ℕ

-- The conditions of the WHERE clause. An empty `from_address` is no condition.
abbrev pub matches : ListOpsFilter → TreasuryOp → Bool
matches f op =
    elim f.op_kind [ none ↦ true | some k ↦ kind_eqb op.op_kind k ]
    && elim f.from_address [ none ↦ true | some a ↦ if a == "" then true else op.from_address == a ]
    && elim f.status [ none ↦ true | some s ↦ status_eqb op.status s ]

-- ORDER BY created_at_ms DESC
unfoldable pub insert_newest : TreasuryOp → List TreasuryOp → List TreasuryOp
insert_newest op [] = op ∷ []
insert_newest op (x ∷ xs) =
    if leb x.created_at_ms op.created_at_ms then op ∷ x ∷ xs else x ∷ insert_newest op xs

unfoldable pub newest_first : List TreasuryOp → List TreasuryOp
newest_first [] = []
newest_first (op ∷ ops) = insert_newest op (newest_first ops)

-- LIMIT n
unfoldable pub take : ℕ → List TreasuryOp → List TreasuryOp
take n [] = []
take zero (op ∷ ops) = []
take (suc n) (op ∷ ops) = op ∷ take n ops

unfoldable pub list_ops : ListOpsFilter → List TreasuryOp → List TreasuryOp
list_ops f ops =
    let rows = newest_first (filter (matches f) ops) in
    elim f.limit [ none ↦ rows | some n ↦ take n rows ]

unfoldable pub get_op_by_id : String → List TreasuryOp → Option TreasuryOp
get_op_by_id id ops = select op_key id ops
