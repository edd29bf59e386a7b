-- ===== src/Trade/Pricing.antt =====
-- `computeLineTotal` and `computeLine` of the repositories of sales and purchase, in doubles. A
-- quantity is counted in thousandths, a rate and a percentage in hundredths; what is stored is rounded
-- to the column.
use vrindavan.Base.{ℕ, Option, none, some, List, map, find_where, ltb, ◌==◌, Bool, ◌&&◌}
use vrindavan.Db.{Db, GstRateRow}
use vrindavan.Trade.Double.{
  Double, hundredths, thousandths, one, add, subtract, multiply, percent, is_less, reduce_sum,
  to_column,
}

-- `quantity * rate * (1 - discountPercent / 100)`
unfoldable pub discounted : ℕ → ℕ → ℕ → Double
unfolding thousandths hundredths multiply subtract percent
discounted quantity rate discount_percent =
    multiply (multiply (thousandths quantity) (hundredths rate))
      (subtract one (percent (hundredths discount_percent)))

-- `gst ? Number(gst.total_rate) / 100 : 0`
unfoldable pub rate_fraction : Option GstRateRow → Double
unfolding hundredths percent
rate_fraction none = record { mantissa = 0; scale = 0 }
rate_fraction (some gst) = percent (hundredths gst.total_rate)

abbrev pub find_gst : ℕ → Db → Option GstRateRow
find_gst id db = find_where (λ g. g.id == id) db.gst_rates

unfoldable pub compute_line_total : ℕ → ℕ → ℕ → Option ℕ → Db → Double
unfolding discounted rate_fraction multiply add
compute_line_total quantity rate discount_percent none db =
    discounted quantity rate discount_percent
compute_line_total quantity rate discount_percent (some gst_id) db =
    multiply (discounted quantity rate discount_percent)
      (add one (rate_fraction (find_gst gst_id db)))

pub record ComputedLine : Type 0 where
  pub subtotal : Double
  pub tax_amount : Double
  pub line_total : Double

unfoldable pub tax_on : Double → Option ℕ → Db → Double
unfolding multiply rate_fraction
tax_on subtotal none db = record { mantissa = 0; scale = 0 }
tax_on subtotal (some gst_id) db = multiply subtotal (rate_fraction (find_gst gst_id db))

unfoldable pub compute_line : ℕ → ℕ → ℕ → Option ℕ → Db → ComputedLine
unfolding discounted tax_on add
compute_line quantity rate discount_percent gst_id db =
    let subtotal = discounted quantity rate discount_percent in
    record {
      subtotal = subtotal;
      tax_amount = tax_on subtotal gst_id db;
      line_total = add subtotal (tax_on subtotal gst_id db);
    }

-- `computed.reduce((sum, c) => sum + c.subtotal, 0)`, and the like for the tax.
unfoldable pub total_subtotal : List ComputedLine → Double
unfolding reduce_sum
total_subtotal computed = reduce_sum (map (λ c. c.subtotal) computed)

unfoldable pub total_tax : List ComputedLine → Double
unfolding reduce_sum
total_tax computed = reduce_sum (map (λ c. c.tax_amount) computed)

-- `subtotal + taxAmount`
unfoldable pub before_discount : List ComputedLine → Double
unfolding total_subtotal total_tax add
before_discount computed = add (total_subtotal computed) (total_tax computed)

-- `subtotal + taxAmount - discountAmount`, rounded to hundredths. Where the discount is the larger
-- the result is negative, which `overdiscounted` refuses unless it rounds to 0.
unfoldable pub invoice_total : List ComputedLine → ℕ → ℕ
unfolding before_discount hundredths subtract to_column
invoice_total computed discount_amount =
    to_column (subtract (before_discount computed) (hundredths discount_amount))

-- `CHECK (paid_amount <= total_amount)` of an invoice on which nothing is paid: a total that rounds,
-- halves away from zero, to less than nothing.
unfoldable pub overdiscounted : List ComputedLine → ℕ → Bool
unfolding before_discount hundredths subtract to_column is_less
overdiscounted computed discount_amount =
    is_less (before_discount computed) (hundredths discount_amount)
    && ltb 0 (to_column (subtract (hundredths discount_amount) (before_discount computed)))
