-- ===== src/Inventory/Tests/Netting.antt =====
-- A refund and the sums of on_hand (inventory/services.py).
use reorder_os.Prelude.{◌≡◌, refl, none, some, [], ◌∷◌, arith, select}
use reorder_os.Prelude.Int.{pos, negsuc, ◌+ℤ◌, ◌-ℤ◌}
use reorder_os.Prelude.Result.{ok}
use reorder_os.Prelude.Decimal.{exact}
use reorder_os.Schema.{
  sale_depletion, sale_depletion_reversal, sale_line_item, reversal, key_eq, part_eq, Movement,
  Ledger, sale_signal, sale_signal_reversal,
}
use reorder_os.Depletion.Writer.{
  has_key, has_id, insert_or_nothing, reverse_row, record_sale_reversal, reversal_key,
}
use reorder_os.Depletion.Writer.Rows.{IsValid}
use reorder_os.Depletion.Walker.{base_key}
use reorder_os.Depletion.Handler.{is_forward, reverse_all, reverse_line}
use reorder_os.Inventory.OnHand.{sum_where, ledger_sum, signals_since}
use reorder_os.Inventory.OnHand.Netting.{reverse_line_nets, reverse_line_nets_signals}

-- One movement of sale line 10, and its reversal.
abbrev sale_row : Movement
sale_row = record {
  id = 5;
  tenant_id = 1;
  inventory_item_id = 7;
  movement_type = sale_depletion;
  delta = negsuc 49999;
  source_type = sale_line_item;
  source_id = some 10;
  idempotency_key = base_key 10 30 7;
  yield_factor_applied = some (pos 10000);
  recorded_at = 900;
  created_at = 900;
}

abbrev sold : Ledger
sold = record { now = 1000; next_id = 6; movements = sale_row ∷ [] }

abbrev refund_row : Movement
refund_row = record sale_row {
  id = 6;
  movement_type = sale_depletion_reversal;
  delta = pos 50000;
  source_type = reversal;
  source_id = some 5;
  idempotency_key = reversal_key 5 7;
  recorded_at = 1000;
  created_at = 1000;
}

abbrev refunded_ledger : Ledger
refunded_ledger = record { now = 1000; next_id = 7; movements = refund_row ∷ sale_row ∷ [] }

sold-IsValid : IsValid sold
sold-IsValid = record { below = (omega arith, tt); ids = (tt, tt); keys = (refl, tt) }

reverse_line-run : reverse_line 1 10 sold ≡ ok (refunded_ledger, 1)
unfolding reverse_line reverse_all is_forward record_sale_reversal has_id reverse_row
    insert_or_nothing has_key key_eq part_eq ◌-ℤ◌
reverse_line-run = refl

ledger_sum-run : ledger_sum 1 7 refunded_ledger.movements ≡ pos 0
unfolding ledger_sum sum_where ◌+ℤ◌
ledger_sum-run = refl

reverse_line_nets_example :
    ledger_sum 1 7 refunded_ledger.movements
    ≡ ledger_sum 1 7 sold.movements -ℤ ledger_sum 1 7 (select (is_forward 1 10) sold.movements)
unfolding is_forward key_eq part_eq has_key
reverse_line_nets_example =
    reverse_line_nets 1 10 7 sold refunded_ledger 1 sold-IsValid reverse_line-run (refl, tt)
      (refl, tt)

-- The same in Mode B.
abbrev signal_row : Movement
signal_row = record sale_row { movement_type = sale_signal; delta = pos 50000 }

abbrev signalled : Ledger
signalled = record { now = 1000; next_id = 6; movements = signal_row ∷ [] }

abbrev unsignalled : Ledger
unsignalled = record {
  now = 1000;
  next_id = 7;
  movements =
      record refund_row { movement_type = sale_signal_reversal; delta = negsuc 49999 }
      ∷ signal_row
      ∷ [];
}

signalled-IsValid : IsValid signalled
signalled-IsValid = record { below = (omega arith, tt); ids = (tt, tt); keys = (refl, tt) }

reverse_line-signal_run : reverse_line 1 10 signalled ≡ ok (unsignalled, 1)
unfolding reverse_line reverse_all is_forward record_sale_reversal has_id reverse_row
    insert_or_nothing has_key key_eq part_eq ◌-ℤ◌
reverse_line-signal_run = refl

reverse_line_nets_signals_example :
    signals_since 1 7 (some 800) none [] unsignalled.movements
    ≡ signals_since 1 7 (some 800) none [] signalled.movements
      -ℤ signals_since 1 7 (some 800) none [] (select (is_forward 1 10) signalled.movements)
unfolding is_forward key_eq part_eq has_key
reverse_line_nets_signals_example =
    reverse_line_nets_signals 1 10 7 signalled unsignalled 1 signalled-IsValid
      reverse_line-signal_run (refl, tt) 800 none [] (omega arith) ((refl, omega arith), tt)
