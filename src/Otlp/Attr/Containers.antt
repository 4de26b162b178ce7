-- ===== src/Otlp/Attr/Containers.antt =====
-- The containers of otlp/attr.go: the frame of one that succeeds is sealed into its parent, and one that
-- fails is rolled back to the parent as it was.
use zapwire.Common.{
  ℕ, suc, ◌≡◌, refl, ◌∙◌, sym, ap, inl, inr, Bool, true, false, [], ◌∷◌, Bytes, length, take, ltb,
  leb, Bool-cases, arith, if◌then◌else◌,
}
use zapwire.Otlp.Attr.{
  Kind, Frame, Stack, max_encode_depth, on_top, fresh, seal_top, seal_onto, seal_down_to, pop_to,
  snap, rollback, add_container,
}

-- To seal down to one frame more first changes nothing.
seal_onto_twice :
    (d : ℕ) (top : Frame) (st : Stack)
    → seal_down_to d (seal_onto (suc d) top st) ≡ seal_onto d top st
unfolding seal_down_to seal_onto
seal_onto_twice d top [] = refl
seal_onto_twice d top (p ∷ st) = elim (Bool-cases (ltb (suc d) (suc (suc (length st))))) [
  | inl more ↦
      let more' : ltb d (suc (suc (length st))) ≡ true = ground arith in
      rw (more, more') (seal_onto_twice d (seal_top top p) st)
  | inr done ↦ rw done refl
]

pub seal_twice : (d : ℕ) (st : Stack) → seal_down_to d (seal_down_to (suc d) st) ≡ seal_down_to d st
unfolding seal_down_to
seal_twice d [] = refl
seal_twice d (top ∷ st) = seal_onto_twice d top st

pub seal_none : (top : Frame) (st : Stack) → seal_down_to (suc (length st)) (top ∷ st) ≡ top ∷ st
unfolding seal_down_to seal_onto
seal_none top [] = refl
seal_none top (p ∷ st) =
    let e : ltb (suc (suc (length st))) (suc (suc (length st))) ≡ false = ground arith in rw e refl

pub seal_one :
    (top p : Frame) (st : Stack)
    → seal_down_to (suc (length st)) (top ∷ p ∷ st) ≡ seal_top top p ∷ st
unfolding seal_down_to seal_onto
seal_one top p st =
    let e : ltb (suc (length st)) (suc (suc (length st))) ≡ true = ground arith in
    rw e (seal_none (seal_top top p) st)

-- Sealing frames above a depth leaves what popping to that depth finds.
pop_seal_onto :
    (d : ℕ) (top : Frame) (st : Stack)
    → pop_to (suc d) (seal_onto (suc (suc d)) top st) ≡ pop_to (suc d) (top ∷ st)
unfolding pop_to seal_onto
pop_seal_onto d top [] = refl
pop_seal_onto d top (p ∷ st) = elim (Bool-cases (ltb (suc (suc d)) (suc (suc (length st))))) [
  | inl more ↦
      let here : ltb (suc d) (suc (suc (length st))) ≡ true = ground arith in
      let next : ltb (suc d) (suc (length st)) ≡ true = ground arith in
      rw (more, here, next) (pop_seal_onto d (seal_top top p) st ∙ rw next refl)
  | inr done ↦ rw done refl
]

pop_seal : (d : ℕ) (st : Stack) → pop_to (suc d) (seal_down_to (suc (suc d)) st) ≡ pop_to (suc d) st
unfolding seal_down_to
pop_seal d [] = refl
pop_seal d (top ∷ st) = pop_seal_onto d top st

pub pop_none : (top : Frame) (st : Stack) → pop_to (suc (length st)) (top ∷ st) ≡ top ∷ st
unfolding pop_to
pop_none top st =
    let e : ltb (suc (length st)) (suc (length st)) ≡ false = ground arith in rw e refl

pub pop_one : (top p : Frame) (st : Stack) → pop_to (suc (length st)) (top ∷ p ∷ st) ≡ p ∷ st
unfolding pop_to
pop_one top p st =
    let e : ltb (suc (length st)) (suc (suc (length st))) ≡ true = ground arith in
    rw e (pop_none p st)

take_whole : (b : Bytes) → take (length b) b ≡ b
take_whole [] = refl
take_whole (c ∷ b) = ap (λ t. c ∷ t) (take_whole b)

-- A state that seals to a child above the parent is rolled back to the parent.
pub rollback_lem :
    (parent child : Frame) (st s : Stack)
    → seal_down_to (suc (suc (length st))) s ≡ child ∷ parent ∷ st
    → rollback (snap (parent ∷ st)) s ≡ parent ∷ st
unfolding rollback
rollback_lem parent child st s sealed =
    let popped : pop_to (suc (length st)) s ≡ parent ∷ st =
      sym (pop_seal (length st) s)
      ∙ ap (λ x. pop_to (suc (length st)) x) sealed
      ∙ pop_one child parent st in
    ap (λ x. on_top (λ f. record f { buf = take (length parent.buf) f.buf }) x) popped
    ∙ ap (λ b. record parent { buf = b } ∷ st) (take_whole parent.buf)

-- A container below the cap, by what its marshaler leaves above the parent.
pub container_lem :
    (kind : Kind) (key : Bytes) (marshal : Stack → Stack × Bool) (parent child : Frame) (st : Stack)
    (failed : Bool)
    → leb max_encode_depth (suc (length st)) ≡ false
    → seal_down_to (suc (suc (length st))) (marshal (fresh kind key ∷ parent ∷ st)).0
      ≡ child ∷ parent ∷ st
    → (marshal (fresh kind key ∷ parent ∷ st)).1 ≡ failed
    → add_container kind key marshal (parent ∷ st)
      ≡ (if failed then (parent ∷ st, true) else (seal_top child parent ∷ st, false))
unfolding add_container
container_lem kind key marshal parent child st true below sealed returns =
    rw (below, returns)
      (ap (λ (s : Stack). (s, true))
        (rollback_lem parent child st (marshal (fresh kind key ∷ parent ∷ st)).0 sealed))
container_lem kind key marshal parent child st false below sealed returns =
    rw (below, returns)
      (ap (λ (s : Stack). (s, false))
        (sym (seal_twice (suc (length st)) (marshal (fresh kind key ∷ parent ∷ st)).0)
          ∙ ap (λ s. seal_down_to (suc (length st)) s) sealed
          ∙ seal_one child parent st))

pub container_full :
    (kind : Kind) (key : Bytes) (marshal : Stack → Stack × Bool) (st : Stack)
    → leb max_encode_depth (length st) ≡ true
    → add_container kind key marshal st ≡ (st, true)
unfolding add_container
container_full kind key marshal st full = rw full refl
