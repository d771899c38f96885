-- ===== src/Depletion/Tests/Lines.antt =====
-- Runs of process_line and reverse_line (depletion/handler.py) on lines 10 and 11.
use reorder_os.Prelude.{◌≡◌, refl, true, false, none, some, [], ◌∷◌, select}
use reorder_os.Prelude.Int.{pos, ◌+ℤ◌, ◌-ℤ◌, ◌*ℤ◌}
use reorder_os.Prelude.Result.{ok, err}
use reorder_os.Prelude.Decimal.{exact}
use reorder_os.Schema.{
  sale_depletion_reversal, reversal, key_eq, part_eq, Movement, Ledger, depleted, unmapped,
  no_recipe,
}
use reorder_os.Depletion.Units.{is_canonical, dimension_of, member}
use reorder_os.Depletion.Conversions.{is_candidate, better, lookup, convert}
use reorder_os.Depletion.Resolver.{resolve_eligibility}
use reorder_os.Depletion.Writer.{
  has_key, has_id, insert_or_nothing, legacy_present, write_movement, reverse_row,
  record_sale_reversal, reversal_key,
}
use reorder_os.Depletion.Walker.{
  storage_of, base_rows, accumulate, yield_factor_of, contribution, convert_row, walk_rows,
  walk_version, walk_base, modifier_rows, walk_modifiers,
}
use reorder_os.Depletion.Handler.{
  Db, ProcessError, is_line, set_status, write_one, write_all, read_line, finish_line, deplete_line,
  process_pending, process_line, is_forward, reverse_all, reverse_line,
}
use reorder_os.Depletion.Handler.Replay.{process_line_replay}
use reorder_os.Depletion.Handler.Reverse.{ReversedAll, reverse_line-ReversedAll}
use reorder_os.Depletion.Tests.{
  sold_line, plain_line, order, db, sale_row, sold_ledger, sold_db, sold_ledger-IsValid,
}

process_line-run : process_line 1 10 none false db ≡ ok (sold_db, (depleted, none))
unfolding process_line read_line is_line process_pending resolve_eligibility deplete_line walk_base
    walk_version base_rows storage_of walk_rows convert_row convert is_canonical dimension_of member
    lookup is_candidate better contribution yield_factor_of accumulate walk_modifiers modifier_rows
    finish_line write_all write_one write_movement legacy_present insert_or_nothing set_status ◌+ℤ◌
    ◌-ℤ◌ ◌*ℤ◌
process_line-run = refl

abbrev plain_db : Db
plain_db = record db {
  lines =
      sold_line
      ∷ record plain_line { depletion_status = some unmapped; depletion_reason = some no_recipe }
      ∷ [];
}

process_line-plain : process_line 1 11 none false db ≡ ok (plain_db, (unmapped, some no_recipe))
unfolding process_line read_line is_line process_pending resolve_eligibility deplete_line walk_base
    set_status
process_line-plain = refl

-- A missing line is an exception.
process_line-missing : process_line 2 10 none false db ≡ err ProcessError.line_not_found
unfolding process_line read_line is_line
process_line-missing = refl

read_line-sold : read_line 1 10 db ≡ some (sold_line, order)
unfolding read_line is_line
read_line-sold = refl

process_line_replay_example :
    process_line 1 10 (some 2000) true sold_db ≡ ok (sold_db, (depleted, none))
process_line_replay_example =
    process_line_replay 1 10 sold_line order db read_line-sold none false sold_db (depleted, none)
      process_line-run (some 2000) true

-- The refund of line 10.
abbrev refund_row : Movement
refund_row = record {
  id = 6;
  tenant_id = 1;
  inventory_item_id = 7;
  movement_type = sale_depletion_reversal;
  delta = pos 20000000;
  source_type = reversal;
  source_id = some 5;
  idempotency_key = reversal_key 5 7;
  yield_factor_applied = some (pos 10000);
  recorded_at = 1000;
  created_at = 1000;
}

abbrev refunded_ledger : Ledger
refunded_ledger = record { now = 1000; next_id = 7; movements = refund_row ∷ sale_row ∷ [] }

reverse_line-run : reverse_line 1 10 sold_ledger ≡ ok (refunded_ledger, 1)
unfolding reverse_line reverse_all is_forward record_sale_reversal has_id reverse_row
    insert_or_nothing has_key key_eq part_eq ◌-ℤ◌
reverse_line-run = refl

reverse_line-ReversedAll_example :
    ReversedAll 1 10
      (select (is_forward 1 10) sold_ledger.movements)
      sold_ledger
      (reverse_line 1 10 sold_ledger)
reverse_line-ReversedAll_example = reverse_line-ReversedAll 1 10 sold_ledger sold_ledger-IsValid

record_sale_reversal-run : record_sale_reversal 1 5 7 sold_ledger ≡ ok (refunded_ledger, some 6)
unfolding record_sale_reversal has_id reverse_row insert_or_nothing has_key key_eq part_eq ◌-ℤ◌
record_sale_reversal-run = refl
