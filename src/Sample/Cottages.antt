-- ===== src/Sample/Cottages.antt =====
-- The cottage collection of the sample database: the status of each cottage by its name.
use kenshu_elaris_project_st.Base.{
  String, ◌≡◌, refl, sym, inl, inr, Bool-cases, Option, none, some, List, lookup, insert,
  lookup-insert, str_eq, str_eq_iff, if◌then◌else◌, arith,
}
use kenshu_elaris_project_st.Domain.Errors.{ok}
use kenshu_elaris_project_st.Mdb.Bson.{
  str, doc, Document, nil, field, no_documents, UpdateResult, Collection,
}
use kenshu_elaris_project_st.Mdb.CottageView.{CottageView, Sets}
use kenshu_elaris_project_st.Sample.{Database}

-- Neither matched nor modified; matched alone; both.
abbrev pub missed : UpdateResult
missed = record { matched_count = 0; modified_count = 0 }

abbrev pub kept : UpdateResult
kept = record { matched_count = 1; modified_count = 0 }

abbrev pub changed : UpdateResult
changed = record { matched_count = 1; modified_count = 1 }

abbrev pub renewed :
    String → String → Option String → List (String × String) → UpdateResult × List (String × String)
renewed name status none m = (missed, m)
renewed name status (some old) m =
    if str_eq old status then (kept, m) else (changed, insert name status m)

abbrev updated :
    Document → Document → List (String × String) → UpdateResult × List (String × String)
updated (field key (str name) nil) (field op (doc (field path (str status) nil)) nil) m =
    renewed name status (lookup name m) m
updated _ _ m = (missed, m)

abbrev pub cottages : Collection Database
cottages = record {
  find_one = λ filter x. (no_documents, x);
  update_one = λ filter update x.
      let (r, m) = updated filter update x.cottages in (ok r, record x { cottages = m });
}

pub renewed-Sets :
    (name status : String) (o : Option String) (m : List (String × String))
    → lookup name m ≡ o
    → let (r, m') = renewed name status o m in
      Sets name status (λ n. lookup n m) (ok r) (λ n. lookup n m')
renewed-Sets name status none m e = inl (e, refl, λ n. refl)
renewed-Sets name status (some old) m e = elim (Bool-cases (str_eq old status)) [
  | inl same ↦ rw same (inr (inl (cc (e, (str_eq_iff old status).0 same), refl, refl, λ n. refl)))
  | inr other ↦ rw other (
      inr (
        inr (
          λ h. ground (arith, e, h, other, str_eq_iff old status),
          refl,
          refl,
          (old, e, λ n. sym (lookup-insert m name n status)),
        )))
]

abbrev pub cottages-view : CottageView cottages
cottages-view = record {
  status = λ x n. lookup n x.cottages;
  update_sets = λ name status x. renewed-Sets name status (lookup name x.cottages) x.cottages refl;
}
