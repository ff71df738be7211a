-- ===== src/Core/Kinds.antt =====
-- Which files the registries cover.
use dyson_fs.Base.{
  List, Text, [], arith, contains, false, if◌then◌else◌, none, not, put_row, row_at, row_at-put_row,
  some, text_discrete, to_lower, trim_space, ◌&&◌, ◌==◌, ◌||◌, ◌∷◌, ◌≡◌, nat_eq, text_equality,
}
use dyson_fs.Core.{kind_of, AnalysisRegistry, enable, enabled, handles, register, handler}

registered {ℓ} :
    {F : Type ℓ} (k at : Text) (fn : F) (handlers : List (Text × F))
    → (if k == [] then none else row_at k (if at == [] then handlers else put_row at fn handlers))
      ≡ (if (k == at) && not (k == [])
          then some fn
          else (if k == [] then none else row_at k handlers))
unfolding text_discrete
registered [] at fn handlers = ground arith
registered (c ∷ k) [] fn handlers = ground arith
registered (c ∷ k) (d ∷ at) fn handlers =
    ground (arith, row_at-put_row (d ∷ at) (c ∷ k) fn handlers)

covered :
    (k at : Text) (r : AnalysisRegistry)
    → (if k == []
        then false
        else contains (if at == [] then r else record { kinds = at ∷ r.kinds }).kinds k)
      ≡ ((if k == [] then false else contains r.kinds k) || ((k == at) && not (k == [])))
unfolding contains text_discrete
covered [] at r = ground arith
covered (c ∷ k) [] r = ground arith
covered (c ∷ k) (d ∷ at) r = ground arith

-- After a handler is registered for a kind, the files of that kind, whatever the case and the
-- parameters of their media type, get that handler; the files of other kinds get what they got
-- before. A blank kind registers nothing.
pub handler-register {ℓ} :
    {F : Type ℓ} (raw : Text) (fn : F) (handlers : List (Text × F)) (mime : Text)
    → handler (register raw fn handlers) mime ≡ (
        if (kind_of mime == to_lower (trim_space raw)) && not (kind_of mime == [])
        then some fn
        else handler handlers mime)
unfolding handler register
handler-register raw fn handlers mime =
    registered (kind_of mime) (to_lower (trim_space raw)) fn handlers

-- Enabling a kind adds the files of that kind to those that are analyzed, and no others.
pub handles-enable :
    (raw mime : Text) (r : AnalysisRegistry)
    → handles (enable raw r) mime ≡ (
        handles r mime || ((kind_of mime == to_lower (trim_space raw)) && not (kind_of mime == [])))
unfolding handles enable enabled
handles-enable raw mime r = covered (kind_of mime) (to_lower (trim_space raw)) r
