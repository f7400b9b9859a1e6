-- ===== src/Mdb/StockRepo/Checks.antt =====
-- The checks of the arguments that both methods begin with, and the change that an update makes.
use kenshu_elaris_project_st.Base.{
  ℤ, pos, neg, ◌≤ℤ◌, String, ◌≡◌, ◌≢◌, refl, ap, ◌⊎◌, true, false, Option, none, some, all_space,
  arith, trim_space, trim_space-eq-nil, str_eq_iff, int_laws, neg_parts, pos_part, neg_part,
}
use kenshu_elaris_project_st.Domain.Errors.{Error, validation_constrain}
use kenshu_elaris_project_st.Domain.Documents.{Stock, add_at}
use kenshu_elaris_project_st.Validation.{validate_error, not_blank, positive_value, new}
use kenshu_elaris_project_st.Mdb.StockRepo.Fields.{Agrees}
use kenshu_elaris_project_st.Port.StockContract.{Changed}

-- What the checks of a method's arguments answer.
abbrev pub checks : String → ℤ → Option Error
checks item quantity =
    validate_error (positive_value "quantity" quantity (not_blank "itemName" item new))

abbrev pub Checked : String → ℤ → Option Error → Type 0
Checked item quantity none = (all_space item ≡ false) × ¬ (quantity ≤ℤ pos 0)
Checked item quantity (some (validation_constrain field message)) =
    (all_space item ≡ true) ⊎ (quantity ≤ℤ pos 0)
Checked item quantity (some _) = ⊥

pub checks-Checked : (item : String) (quantity : ℤ) → Checked item quantity (checks item quantity)
unfolding validate_error positive_value not_blank
checks-Checked item quantity =
    ground (arith, trim_space-eq-nil item, str_eq_iff (trim_space item) "")

-- The change that an update makes, in terms of the public map.
abbrev pub changed_by :
    (item path : String) (d : ℤ) (s : Stock) (a : Agrees s item path)
    → (now : Option Stock) → now ≡ some (add_at path d s)
    → Changed item d (some s) now
changed_by item path d s a now e = record {
  old = s;
  new = add_at path d s;
  item = a.item;
  was = refl;
  now = e;
  listed = a.listed;
  changed = a.added d;
}

pub positive-neg : (quantity : ℤ) → ¬ (quantity ≤ℤ pos 0) → neg quantity ≢ pos 0
positive-neg quantity h e = omega (int_laws, neg_parts quantity, ap pos_part e, ap neg_part e)

pub positive_ne : (quantity : ℤ) → ¬ (quantity ≤ℤ pos 0) → quantity ≢ pos 0
positive_ne quantity h e = omega (arith, ap pos_part e, ap neg_part e)
