-- ===== src/Domain/Errors.antt =====
-- The errors of domain/errors as one type. Go's `error` is `Option Error`, `nil` being `none`.
use kenshu_elaris_project_st.Base.{ℤ, String, Option, none, some, concat}

pub data Error : Type 0 where
  -- An error of another package whose chain holds none of the types below.
  foreign : String → Error
  -- `fmt.Errorf` with no `%w`, and `errors.New`.
  plain : String → Error
  -- domain/errors/validationErrors: `ErrValidationConstrain`.
  validation_constrain : (field message : String) → Error
  -- domain/errors/dbErrors. Its `UnexpectedErr` has no `Unwrap`.
  unexpected : (msg : String) (err : Error) → Error
  corrupted_data : (err : Error) → Error
  cottage_does_not_exist : (cottage_name : String) → Error
  stock_does_not_exist : Error
  stock_insufficient_quantity : (item_name : String) (quantity : ℤ) → Error
  cottage_cleaning_status_not_updated : (cottage_name : String) → Error
  stock_item_quantity_not_updated : (item_name : String) → Error
  -- domain/errors/mqErrors: its `UnexpectedErr` has an `Unwrap`.
  mq_unexpected : (msg : String) (err : Error) → Error
  -- `fmt.Errorf` with `%w`.
  wrapped : (msg : String) (err : Error) → Error

-- `errors.As(err, &stockErr)` for a `*dbErrors.StockInsufficientQuantityErr`: the first one in the
-- chain of `Unwrap`.
unfoldable pub as_stock_insufficient : Error → Option (String × ℤ)
as_stock_insufficient (stock_insufficient_quantity item_name quantity) = some (item_name, quantity)
as_stock_insufficient (mq_unexpected msg err) = as_stock_insufficient err
as_stock_insufficient (wrapped msg err) = as_stock_insufficient err
as_stock_insufficient _ = none

-- `Error()`, with `decimal` for the verb "%d"; the text of a wrapped error stands behind a colon.
unfoldable pub error_text : (decimal : ℤ → String) → Error → String
error_text decimal (foreign text) = text
error_text decimal (plain text) = text
error_text decimal (validation_constrain field message) =
    concat field (concat " has violations; " message)
error_text decimal (unexpected msg err) =
    concat "unexpected error, " (concat msg (concat ": " (error_text decimal err)))
error_text decimal (corrupted_data err) =
    concat "database contains inconsistent cottage data: " (error_text decimal err)
error_text decimal (cottage_does_not_exist cottage_name) =
    concat "Cottage with name " (concat cottage_name " does not exist")
error_text decimal stock_does_not_exist = "Could not find stock collection"
error_text decimal (stock_insufficient_quantity item_name quantity) =
    concat "Stock for item "
      (concat item_name (concat " is insufficient, " (concat (decimal quantity) " requested")))
error_text decimal (cottage_cleaning_status_not_updated cottage_name) =
    concat "could not update cleaningStatus for cottage " cottage_name
error_text decimal (stock_item_quantity_not_updated item_name) =
    concat "could not update quantity for item " item_name
error_text decimal (mq_unexpected msg err) =
    concat "unexpected error, " (concat msg (concat ": " (error_text decimal err)))
error_text decimal (wrapped msg err) = concat msg (concat ": " (error_text decimal err))

-- A Go result `(A, error)`, of which the caller reads the value only if the error is nil.
pub data Result {ℓ} (A : Type ℓ) : Type ℓ where
  ok : A → Result A
  err : Error → Result A
