-- ===== src/Validation/Email/Grammar.antt =====
-- The grammar of email addresses.
use Prim.Native.Char.{Char, code}
use kenshu_elaris_project_st.Base.{
  ℕ, String, Bool, true, false, Bool-cases, ◌&&◌, ◌||◌, ◌==◌, ==_iff, concat, ◌≡◌, ◌≢◌, refl, sym,
  ap, ◌∙◌, inl, inr, ◌↔◌, ◌⊎◌, if◌then◌else◌, arith,
}
use kenshu_elaris_project_st.Domain.Errors.{validation_constrain}
use kenshu_elaris_project_st.Validation.{validate, run_steps, passed, failed, new}
use kenshu_elaris_project_st.Validation.Email.{
  letter, domain_char, local_char, all_of, two_or_more, any_then, some_then, email_matches,
  email_format,
}

and_both : (a b : Bool) → (a && b) ≡ true → (a ≡ true) × (b ≡ true)
and_both true b h = (refl, h)
and_both false b h = cc h

both_and : (a b : Bool) → a ≡ true → b ≡ true → (a && b) ≡ true
both_and true b ha hb = hb
both_and false b ha hb = ha

or_either : (a b : Bool) → (a || b) ≡ true → (a ≡ true) ⊎ (b ≡ true)
or_either true b h = inl refl
or_either false b h = inr h

or_right : (a b : Bool) → b ≡ true → (a || b) ≡ true
or_right true b h = refl
or_right false b h = h

-- A text that has the three parts, of which the first has only characters of `p`.
abbrev pub Parts : (p : ℕ → Bool) (stop : ℕ) (inner : String → Bool) → String → Type 0
Parts p stop inner s =
    (front : String) × (c : Char) × (rest : String) × (s ≡ concat front (String.◌∷◌ c rest))
    × (code c ≡ stop)
    × (all_of p front ≡ true)
    × (inner rest ≡ true)

module _ (p : ℕ → Bool) (stop : ℕ) (inner : String → Bool) where
  any_then-Parts : (s : String) → any_then p stop inner s ≡ true → Parts p stop inner s
  any_then-Parts String.[] h = cc h
  any_then-Parts (String.◌∷◌ c s) h =
      elim (or_either (code c == stop && inner s) (p (code c) && any_then p stop inner s) h) [
        | inl stops ↦
            let (at, matches) = and_both (code c == stop) (inner s) stops in
            ("", c, s, refl, (==_iff (code c) stop).0 at, refl, matches)
        | inr goes ↦
            let (first, others) = and_both (p (code c)) (any_then p stop inner s) goes in
            let (front, d, rest, is, at, all, matches) = any_then-Parts s others in
            (
              String.◌∷◌ c front,
              d,
              rest,
              ap (λ t. String.◌∷◌ c t) is,
              at,
              both_and (p (code c)) (all_of p front) first all,
              matches,
            )
      ]

  Parts-any_then :
      (front : String) (c : Char) (rest : String)
      → code c ≡ stop
      → all_of p front ≡ true
      → inner rest ≡ true
      → any_then p stop inner (concat front (String.◌∷◌ c rest)) ≡ true
  Parts-any_then String.[] c rest at all matches = rw ((==_iff (code c) stop).1 at, matches) refl
  Parts-any_then (String.◌∷◌ d front) c rest at all matches =
      let (first, others) = and_both (p (code d)) (all_of p front) all in
      let whole : String = concat front (String.◌∷◌ c rest) in
      or_right (code d == stop && inner whole) (p (code d) && any_then p stop inner whole) (
        both_and (p (code d)) (any_then p stop inner whole) first
          (Parts-any_then front c rest at others matches))

  -- Behind a first character of `p`.
  abbrev SomeParts : String → Type 0
  SomeParts s =
      (front : String) × (c : Char) × (rest : String) × (s ≡ concat front (String.◌∷◌ c rest))
      × (code c ≡ stop)
      × (front ≢ "")
      × (all_of p front ≡ true)
      × (inner rest ≡ true)

  some_then-SomeParts : (s : String) → some_then p stop inner s ≡ true → SomeParts s
  some_then-SomeParts String.[] h = cc h
  some_then-SomeParts (String.◌∷◌ c s) h =
      let (first, others) = and_both (p (code c)) (any_then p stop inner s) h in
      let (front, d, rest, is, at, all, matches) = any_then-Parts s others in
      (
        String.◌∷◌ c front,
        d,
        rest,
        ap (λ t. String.◌∷◌ c t) is,
        at,
        (λ e. cc e),
        both_and (p (code c)) (all_of p front) first all,
        matches,
      )

  SomeParts-some_then :
      (front : String) (c : Char) (rest : String)
      → code c ≡ stop
      → front ≢ ""
      → all_of p front ≡ true
      → inner rest ≡ true
      → some_then p stop inner (concat front (String.◌∷◌ c rest)) ≡ true
  SomeParts-some_then String.[] c rest at filled all matches = absurd (filled refl)
  SomeParts-some_then (String.◌∷◌ d front) c rest at filled all matches =
      let (first, others) = and_both (p (code d)) (all_of p front) all in
      let whole : String = concat front (String.◌∷◌ c rest) in
      both_and (p (code d)) (any_then p stop inner whole) first
        (Parts-any_then front c rest at others matches)

-- An address: a name, "@", a domain, ".", and a top domain of two letters or more.
pub record Address (s : String) : Type 0 where
  pub name : String
  pub at : Char
  pub domain : String
  pub dot : Char
  pub top : String
  pub spelt : s ≡ concat name (String.◌∷◌ at (concat domain (String.◌∷◌ dot top)))
  pub is_at : code at ≡ 64
  pub is_dot : code dot ≡ 46
  pub has_name : name ≢ ""
  pub name_chars : all_of local_char name ≡ true
  pub has_domain : domain ≢ ""
  pub domain_chars : all_of domain_char domain ≡ true
  pub first_letter : Char
  pub second_letter : Char
  pub more_letters : String
  pub top_spelt : top ≡ String.◌∷◌ first_letter (String.◌∷◌ second_letter more_letters)
  pub top_letters : all_of letter top ≡ true

two_or_more-split :
    (p : ℕ → Bool) (s : String)
    → two_or_more p s ≡ true
    → (c : Char) × (d : Char) × (more : String) × (s ≡ String.◌∷◌ c (String.◌∷◌ d more))
      × (all_of p s ≡ true)
two_or_more-split p String.[] h = cc h
two_or_more-split p (String.◌∷◌ c String.[]) h = cc h
two_or_more-split p (String.◌∷◌ c (String.◌∷◌ d s)) h = (c, d, s, refl, h)

two_or_more-join :
    (p : ℕ → Bool) (c d : Char) (more s : String)
    → s ≡ String.◌∷◌ c (String.◌∷◌ d more)
    → all_of p s ≡ true
    → two_or_more p s ≡ true
two_or_more-join p c d more s is h = ap (two_or_more p) is ∙ ap (all_of p) (sym is) ∙ h

matches-Address : (s : String) → (email_matches s ≡ true) ↔ Address s
unfolding email_matches
matches-Address s = (split, joined)
  where
    after_at : String → Bool
    after_at = some_then domain_char 46 (two_or_more letter)

    split : some_then local_char 64 after_at s ≡ true → Address s
    split h =
        let (name, at, rest, spelt, is_at, has_name, name_chars, matches) =
          some_then-SomeParts local_char 64 after_at s h in
        let (domain, dot, top, spelt_rest, is_dot, has_domain, domain_chars, matches_top) =
          some_then-SomeParts domain_char 46 (two_or_more letter) rest matches in
        let (first_letter, second_letter, more_letters, top_spelt, top_letters) =
          two_or_more-split letter top matches_top in
        record {
          name = name;
          at = at;
          domain = domain;
          dot = dot;
          top = top;
          spelt = spelt ∙ ap (λ t. concat name (String.◌∷◌ at t)) spelt_rest;
          is_at = is_at;
          is_dot = is_dot;
          has_name = has_name;
          name_chars = name_chars;
          has_domain = has_domain;
          domain_chars = domain_chars;
          first_letter = first_letter;
          second_letter = second_letter;
          more_letters = more_letters;
          top_spelt = top_spelt;
          top_letters = top_letters;
        }

    joined : Address s → some_then local_char 64 after_at s ≡ true
    joined a =
        ap (some_then local_char 64 after_at) a.spelt
        ∙ SomeParts-some_then local_char 64 after_at a.name a.at
            (concat a.domain (String.◌∷◌ a.dot a.top)) a.is_at a.has_name a.name_chars
            (SomeParts-some_then domain_char 46 (two_or_more letter) a.domain a.dot a.top a.is_dot
              a.has_domain a.domain_chars
              (two_or_more-join letter a.first_letter a.second_letter a.more_letters a.top
                a.top_spelt a.top_letters))

validated :
    (email : String)
    → validate (email_format email new) ≡ (
        if email_matches email
        then passed
        else failed (validation_constrain "email" "email not valid"))
unfolding validate run_steps email_format
validated email = ground arith

-- A chain of one `EmailFormat` passes exactly for the addresses: some characters of a name, "@", some
-- characters of a domain, ".", and two or more letters.
pub email_format-Address :
    (email : String) → (validate (email_format email new) ≡ passed) ↔ Address email
email_format-Address email = elim (Bool-cases (email_matches email)) [
  | inl fits ↦ (λ h. (matches-Address email).0 fits, λ a. validated email ∙ rw fits refl)
  | inr other ↦ (
    λ h. cc (rw other at (sym (validated email) ∙ h)),
    λ a. cc ((matches-Address email).1 a, other),
  )
]
