-- ===== src/Treasury/OpsStore/Outcome.antt =====
-- The life of a row of `treasury_ops`: pending once it is recorded, and then what the first outcome
-- says.
use lp_agent.Prelude.{
  ℕ, String, ◌≡◌, refl, some, List, [], ◌∷◌, ◌==◌, eq_refl, eq_iff, arith, if◌then◌else◌,
}
use lp_agent.Table.{select, update}
use lp_agent.Table.Laws.{select-update_ne}
use lp_agent.Treasury.OpsStore.{
  TreasuryOp, op_key, RecordOpArgs, record_op, MarkOpResultArgs, status_of, coalesce, set_result,
  mark_op_result, get_op_by_id,
}

set_result-id : (r : MarkOpResultArgs) (op : TreasuryOp) → (set_result r op).id ≡ op.id
unfolding set_result
set_result-id r op = ground arith

set_result-twice :
    (first later : MarkOpResultArgs) (op : TreasuryOp)
    → set_result later (set_result first op) ≡ set_result first op
unfolding set_result
set_result-twice first later op = ground arith

-- The first outcome of an operation stands: a later report of the same operation, whatever it says,
-- changes no row of the log.
pub first_outcome_stands :
    (id : String) (first later : MarkOpResultArgs) (ops : List TreasuryOp)
    → mark_op_result id later (mark_op_result id first ops) ≡ mark_op_result id first ops
unfolding mark_op_result update
first_outcome_stands id first later [] = refl
first_outcome_stands id first later (op ∷ ops) = ground (
  arith,
  set_result-id first op,
  set_result-twice first later op,
  first_outcome_stands id first later ops,
)

-- An operation that is recorded and then reported reads back with the reported status, digest and
-- error, and with the recorded amount where the report has none; every other operation reads back
-- as it was.
pub recorded_then_reported :
    (id other : String) (args : RecordOpArgs) (now_ms : ℕ) (r : MarkOpResultArgs)
    (ops after : List TreasuryOp)
    → record_op id args now_ms ops ≡ some (id, after)
    → get_op_by_id other (mark_op_result id r after) ≡ (
        if other == id
        then some (record {
          id = id;
          op_kind = args.op_kind;
          from_address = args.from_address;
          to_address = args.to_address;
          coin_type_in = args.coin_type_in;
          amount_in = args.amount_in;
          coin_type_out = args.coin_type_out;
          amount_out = coalesce r.amount_out args.amount_out;
          digest = r.digest;
          status = status_of r.status;
          error = r.error;
          initiated_by = args.initiated_by;
          created_at_ms = now_ms;
        })
        else get_op_by_id other ops)
unfolding record_op get_op_by_id mark_op_result set_result select update
recorded_then_reported id other args now_ms r ops after h = ground (
  arith,
  eq_iff other id,
  eq_iff id other,
  eq_refl id,
  select-update_ne op_key (set_result r) (set_result-id r) id other ops,
)
