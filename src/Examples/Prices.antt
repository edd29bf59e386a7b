-- ===== src/Examples/Prices.antt =====
-- Prices in doubles, and what the columns store of them.
use vrindavan.Base.{Bool, ◌≡◌, refl, none, some, [], ◌∷◌}
use vrindavan.Db.{Db}
use vrindavan.Trade.Double.{to_column, nearest, add}
use vrindavan.Trade.Pricing.{compute_line_total, compute_line, invoice_total, overdiscounted}
use vrindavan.Examples.{shop}

abbrev taxed : Db
taxed = record shop { gst_rates = record { id = 7; total_rate = 500 } ∷ [] }

-- One piece at 5.30 with 5 % of tax: 5.57 on an order.
ordered_price : to_column (compute_line_total 1000 530 0 (some 7) taxed) ≡ 557
unfolding to_column compute_line_total
ordered_price = refl

-- The same piece on an invoice: 5.56.
invoiced_price : to_column ((compute_line 1000 530 0 (some 7) taxed).line_total) ≡ 556
unfolding to_column compute_line
invoiced_price = refl

invoiced_total : invoice_total (compute_line 1000 530 0 (some 7) taxed ∷ []) 56 ≡ 500
unfolding invoice_total compute_line
invoiced_total = refl

overdiscounted_by_a_cent : overdiscounted (compute_line 1000 530 0 none taxed ∷ []) 531 ≡ Bool.true
unfolding overdiscounted compute_line
overdiscounted_by_a_cent = refl

-- A half of a cent goes up, and what 0.1 and 0.2 come to is 0.30.
half_up : to_column (nearest 1005 1000) ≡ 101
unfolding to_column nearest
half_up = refl

tenths : to_column (add (nearest 1 10) (nearest 2 10)) ≡ 30
unfolding to_column add nearest
tenths = refl
