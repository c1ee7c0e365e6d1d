-- ===== src/Compatibility/Positions.antt =====
-- What the conversion of a report yields, and what parse_target_value cuts out.
use dong_tai_server.Prelude.{
  ℕ, ◌≡◌, ◌≢◌, refl, ap, none, some, [], ◌∷◌, ◌++◌, length, take, All, arith, number_comparison,
}
use dong_tai_server.Prelude.Text.{Text}
use dong_tai_server.Compatibility.{
  Report, TaintPosition, method_pool_3_to_2, rfind, but_last, parse_target_value,
}

-- Converting a report that has been converted already changes nothing.
pub method_pool_3_to_2_idem :
    (dic dic' : Report) → method_pool_3_to_2 dic ≡ some dic' → method_pool_3_to_2 dic' ≡ some dic'
unfolding method_pool_3_to_2
method_pool_3_to_2_idem dic dic' h = ground arith

-- A report with "taintPosition" is converted.
pub method_pool_3_to_2_total :
    (dic : Report) (position : TaintPosition)
    → dic.taint_position ≡ some position
    → (dic' : Report) × (method_pool_3_to_2 dic ≡ some dic')
unfolding method_pool_3_to_2
method_pool_3_to_2_total dic position e = rw (e, method_pool_3_to_2) (_, refl)

rfind-none : (c : ℕ) (s : Text) → All (λ d. d ≢ c) s → rfind c s ≡ none
unfolding rfind
rfind-none c [] h = refl
rfind-none c (d ∷ s) h = ground (arith, rfind-none c s h.1, h.0)

rfind-append : (c : ℕ) (s t : Text) → rfind c t ≡ none → rfind c (s ++ c ∷ t) ≡ some (length s)
unfolding rfind
rfind-append c [] t h = ground arith
rfind-append c (d ∷ s) t h = ground (arith, rfind-append c s t h)

take-append : (s t : Text) → take (length s) (s ++ t) ≡ s
take-append [] t = refl
take-append (c ∷ s) t = ap (λ u. c ∷ u) (take-append s t)

but_last-append : (s : Text) (c : ℕ) → but_last (s ++ c ∷ []) ≡ s
but_last-append [] c = refl
but_last-append (d ∷ []) c = refl
but_last-append (d ∷ e ∷ s) c = ap (λ u. d ∷ u) (but_last-append (e ∷ s) c)

-- From `[value]*length` the value is cut out whole, whatever it holds, if the length has no star.
pub parse_target_value-wrapped :
    (value digits : Text) (left right : ℕ)
    → All (λ d. d ≢ b'*') digits
    → parse_target_value ((left ∷ value ++ right ∷ []) ++ b'*' ∷ digits) ≡ value
unfolding parse_target_value
parse_target_value-wrapped value digits left right h =
    rw (rfind-append b'*' (left ∷ value ++ right ∷ []) digits (rfind-none b'*' digits h))
      (rw (take-append (value ++ right ∷ []) (b'*' ∷ digits)) (but_last-append value right))
