-- ===== src/Orders/Manager/Tests.antt =====
-- Updates of single orders at concrete inputs.
use quantamental_engine.Base.{true, some, List, [], ◌∷◌, ◌≡◌, refl, arith}
use quantamental_engine.Base.Int.{ℤ}
use quantamental_engine.Float.Fixed.{fixed}
use quantamental_engine.Orders.Row.{Order, OrderDict, row_of}
use quantamental_engine.Orders.Store.{overwrite, same_id, conflicts}
use quantamental_engine.Orders.Store.Key.{row_at, has_key, KeysUnique}
use quantamental_engine.Orders.Manager.{set_account}
use quantamental_engine.Orders.Manager.Update.{update_table, terminal_overwritten}
use quantamental_engine.Orders.Tests.{sent, stored}

abbrev table : List (Order ℤ)
table = stored "A1" "filled" 70000 ∷ stored "A2" "new" 65000 ∷ []

table-KeysUnique : KeysUnique table
unfolding conflicts row_of
table-KeysUnique = ground arith

-- the filled order's first message, as the handler passes it on
abbrev replayed : OrderDict ℤ
replayed = record (sent "A1" "new" 1) { account_id = some 1 }

-- A replay of the filled order's first message makes it new again.
terminal_overwritten_example :
    let (accepted, after) = update_table 2000 1 replayed table in
    let row = row_of 2000 (set_account 1 replayed) in
    (accepted ≡ true)
    × (row_at 1 "A1" after ≡ some (overwrite (stored "A1" "filled" 70000) row))
    × ((overwrite (stored "A1" "filled" 70000) row).status ≡ "new")
unfolding row_at row_of has_key same_id
terminal_overwritten_example =
    terminal_overwritten 2000 1 replayed table "A1" {r = stored "A1" "filled" 70000}
      table-KeysUnique refl refl refl refl refl (omega arith)
