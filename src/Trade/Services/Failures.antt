-- ===== src/Trade/Services/Failures.antt =====
-- What a service answers when a payment fails (customer-payments.service.ts and
-- supplier-payments.service.ts).
use vrindavan.Base.{◌≡◌, true, false, Bool, arith}
use vrindavan.Db.{Error, no_current_financial_year}
use vrindavan.Inventory.Services.{HttpException}
use vrindavan.Trade.Payment.Raises.{is_payment_error}
use vrindavan.Trade.Services.{answer_payment}
use vrindavan.Stock.Refusal.{is_storage}

-- 400, or no current financial year or an error of the database was thrown on.
abbrev pub is_refusal : HttpException → Bool
is_refusal (HttpException.not_found m) = false
is_refusal (HttpException.conflict m) = false
is_refusal (HttpException.bad_request m) = true
is_refusal (HttpException.unhandled no_current_financial_year) = true
is_refusal (HttpException.unhandled e) = is_storage e

pub answer_payment-IsRefusal :
    (e : Error) → is_payment_error e ≡ true → is_refusal (answer_payment e) ≡ true
unfolding answer_payment
answer_payment-IsRefusal e h = ground arith
