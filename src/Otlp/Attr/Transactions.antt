-- ===== src/Otlp/Attr/Transactions.antt =====
-- The snapshots of otlp/attr.go: whatever a marshaler does, a rollback finds the state as it was.
use zapwire.Common.{
  ℕ, suc, ◌≡◌, refl, ◌∙◌, sym, ap, inl, inr, Bool, true, false, Option, none, some, [], ◌∷◌, ◌++◌,
  Bytes, append-nil, append_assoc, length, take, take-append, ltb, leb, Bool-cases, arith,
}
use mathlib.Core.Path.{subst}
use zapwire.Otlp.Attr.{
  Kind, frame_kv_list, frame_array, Frame, Stack, text, any_value, max_encode_depth, on_top, fresh,
  seal_top, seal_onto, seal_down_to, pop_to, snap, rollback, av_tag, entry_tag, add_value, add_av,
  add_container,
}
use zapwire.Otlp.Attr.Marshaler.{
  Reflected, span, json, Fields, end, add, add_any, namespace, object, array, Elements, stop,
  append, append_any, append_object, append_array, add_reflected, append_reflected, run_fields,
  run_elements,
}
use zapwire.Otlp.Attr.Tree.{tagged}
use zapwire.Otlp.Attr.Layout.{entry, add_by_lem, bytes_lem, seal_top_lem}
use zapwire.Otlp.Attr.Containers.{pop_none, pop_one}

-- More bytes at the end of a frame.
abbrev pub grow : Bytes → Frame → Frame
grow w f = record f { buf = f.buf ++ w }

grow_twice : (v w : Bytes) (f : Frame) → grow w (grow v f) ≡ grow (v ++ w) f
grow_twice v w f = ap (λ b. record f { buf = b }) (append_assoc f.buf v w)

grow_none : (f : Frame) → f ≡ grow [] f
grow_none f = ap (λ b. record f { buf = b }) (sym (append-nil f.buf))

pop_twice : (d : ℕ) (s : Stack) → pop_to d (pop_to (suc d) s) ≡ pop_to d s
unfolding pop_to
pop_twice d [] = refl
pop_twice d (top ∷ st) = elim (Bool-cases (ltb (suc d) (suc (length st)))) [
  | inl more ↦
      let more' : ltb d (suc (length st)) ≡ true = ground arith in rw (more, more') (pop_twice d st)
  | inr done ↦ rw done refl
]

-- Sealing adds bytes to the frame that popping would find.
seal_grows :
    (d : ℕ) (top : Frame) (st : Stack)
    → (w : Bytes) × (seal_onto (suc d) top st ≡ on_top (grow w) (pop_to (suc d) (top ∷ st)))
unfolding seal_onto pop_to
seal_grows d top [] =
    let e : ltb (suc d) 1 ≡ false = ground arith in rw e ([], ap (λ f. f ∷ []) (grow_none top))
seal_grows d top (p ∷ st) = elim (Bool-cases (ltb (suc d) (suc (suc (length st))))) [
  | inl more ↦ rw more (elim (Bool-cases (ltb (suc d) (suc (length st)))) [
    | inl next ↦ let ih = seal_grows d (seal_top top p) st in rw next (ih.0, ih.1 ∙ rw next refl)
    | inr last ↦
        let ih = seal_grows d (seal_top top p) st in
        let e = entry p.kind top.ns_key (tagged (av_tag top.kind) top.buf) in
        rw last (
          e ++ ih.0,
          ih.1
              ∙ rw last (
                  ap (λ f. grow ih.0 f ∷ st) (seal_top_lem top p)
                  ∙ ap (λ f. f ∷ st) (grow_twice e ih.0 p)),
        )
  ])
  | inr done ↦ rw done ([], ap (λ f. f ∷ p ∷ st) (grow_none top))
]

-- A state reached from `f ∷ st`: what is below the frame is as it was, and the frame has only grown.
Keeps : Frame → Stack → Stack → Type 0
Keeps f st s = (w : Bytes) × (pop_to (suc (length st)) s ≡ grow w f ∷ st)

at_start : (f : Frame) (st : Stack) → Keeps f st (f ∷ st)
unfolding Keeps
at_start f st = ([], pop_none f st ∙ ap (λ x. x ∷ st) (grow_none f))

widen : (v : Bytes) (f : Frame) (st s : Stack) → Keeps (grow v f) st s → Keeps f st s
unfolding Keeps
widen v f st s k = (v ++ k.0, k.1 ∙ ap (λ x. x ∷ st) (grow_twice v k.0 f))

-- Below a frame that was opened, everything is as it was.
untouched : (g f : Frame) (st s : Stack) → Keeps g (f ∷ st) s → pop_to (suc (length st)) s ≡ f ∷ st
unfolding Keeps
untouched g f st s k =
    sym (pop_twice (suc (length st)) s)
    ∙ ap (λ x. pop_to (suc (length st)) x) k.1
    ∙ pop_one (grow k.0 g) f st

beneath : (g f : Frame) (st s : Stack) → Keeps g (f ∷ st) s → Keeps f st s
unfolding Keeps
beneath g f st s k = ([], untouched g f st s k ∙ ap (λ x. x ∷ st) (grow_none f))

rollback-Keeps : (f : Frame) (st s : Stack) → Keeps f st s → rollback (snap (f ∷ st)) s ≡ f ∷ st
unfolding Keeps rollback
rollback-Keeps f st s k =
    ap (λ x. on_top (λ g. record g { buf = take (length f.buf) g.buf }) x) k.1
    ∙ ap (λ b. record f { buf = b } ∷ st) (take-append f.buf k.0)

seal_down_to_grows :
    (d : ℕ) (s : Stack)
    → (w : Bytes) × (seal_down_to (suc d) s ≡ on_top (grow w) (pop_to (suc d) s))
unfolding seal_down_to pop_to
seal_down_to_grows d [] = ([], refl)
seal_down_to_grows d (top ∷ st) = seal_grows d top st

-- A container leaves the frame grown by its entry, or as it was.
container-Keeps :
    (kind : Kind) (key : Bytes) (marshal : Stack → Stack × Bool) (f : Frame) (st : Stack)
    → Keeps (fresh kind key) (f ∷ st) (marshal (fresh kind key ∷ f ∷ st)).0
    → (w : Bytes) × ((add_container kind key marshal (f ∷ st)).0 ≡ grow w f ∷ st)
unfolding add_container Keeps
container-Keeps kind key marshal f st k =
    let s = (marshal (fresh kind key ∷ f ∷ st)).0 in
    let below = untouched (fresh kind key) f st s k in
    let same : f ∷ st ≡ grow [] f ∷ st = ap (λ x. x ∷ st) (grow_none f) in
    elim (Bool-cases (leb max_encode_depth (suc (length st)))) [
      | inl full ↦ rw full ([], same)
      | inr open' ↦ rw open' (elim (Bool-cases (marshal (fresh kind key ∷ f ∷ st)).1) [
        | inl failed ↦ rw failed ([], rollback-Keeps f st s ([], below ∙ same) ∙ same)
        | inr fine ↦
            let grown = seal_down_to_grows (length st) s in
            rw fine (grown.0, grown.1 ∙ ap (λ x. on_top (grow grown.0) x) below)
      ])
    ]

-- A call that has grown the frame, in front of a run that keeps it.
after_fields :
    (s : Fields) (f : Frame) (st x : Stack)
    → ((g : Frame) → Keeps g st (run_fields s (g ∷ st)).0)
    → (w : Bytes) × (x ≡ grow w f ∷ st)
    → Keeps f st (run_fields s x).0
after_fields s f st x rest (w, e) =
    widen w f st (run_fields s x).0
      (subst (λ y. Keeps (grow w f) st (run_fields s y).0) (sym e) (rest (grow w f)))

after_elements :
    (s : Elements) (f : Frame) (st x : Stack)
    → ((g : Frame) → Keeps g st (run_elements s (g ∷ st)).0)
    → (w : Bytes) × (x ≡ grow w f ∷ st)
    → Keeps f st (run_elements s x).0
after_elements s f st x rest (w, e) =
    widen w f st (run_elements s x).0
      (subst (λ y. Keeps (grow w f) st (run_elements s y).0) (sym e) (rest (grow w f)))

value_grows :
    (key av : Bytes) (f : Frame) (st : Stack)
    → (w : Bytes) × (add_value key av (f ∷ st) ≡ grow w f ∷ st)
unfolding add_value
value_grows key av f st =
    (entry f.kind key av, ap (λ g. g ∷ st) (add_by_lem f.kind f.ns_key f.buf key av))

element_grows :
    (av : Bytes) (f : Frame) (st : Stack)
    → (w : Bytes) × (on_top (add_av av) (f ∷ st) ≡ grow w f ∷ st)
unfolding add_av
element_grows av f st = (
  tagged (entry_tag f.kind) av,
  ap (λ b. record f { buf = b } ∷ st) (bytes_lem f.buf (entry_tag f.kind) av),
)

reflected_grows :
    (key : Bytes) (v : Reflected) (f : Frame) (st : Stack)
    → (w : Bytes) × ((add_reflected key v (f ∷ st)).0 ≡ grow w f ∷ st)
unfolding add_reflected
reflected_grows key (span sc) f st = ([], ap (λ g. g ∷ st) (grow_none f))
reflected_grows key (json none) f st = ([], ap (λ g. g ∷ st) (grow_none f))
reflected_grows key (json (some js)) f st = value_grows key (any_value (text js)) f st

appended_grows :
    (v : Option Bytes) (f : Frame) (st : Stack)
    → (w : Bytes) × ((append_reflected v (f ∷ st)).0 ≡ grow w f ∷ st)
unfolding append_reflected
appended_grows none f st = ([], ap (λ g. g ∷ st) (grow_none f))
appended_grows (some js) f st = element_grows (any_value (text js)) f st

mutual
  unfolding run_fields

  run_fields-Keeps : (s : Fields) (f : Frame) (st : Stack) → Keeps f st (run_fields s (f ∷ st)).0
  run_fields-Keeps (end failed) f st = at_start f st
  run_fields-Keeps (add key v next) f st =
      after_fields next f st _ (λ g. run_fields-Keeps next g st)
        (value_grows key (any_value v) f st)
  run_fields-Keeps (add_any key v next) f st =
      after_fields (next (add_reflected key v (f ∷ st)).1) f st _
        (λ g. run_fields-Keeps (next (add_reflected key v (f ∷ st)).1) g st)
        (reflected_grows key v f st)
  run_fields-Keeps (namespace key next) f st =
      beneath (fresh frame_kv_list key) f st _
        (run_fields-Keeps next (fresh frame_kv_list key) (f ∷ st))
  run_fields-Keeps (object key child next) f st =
      let failed = (add_container frame_kv_list key (λ s. run_fields child s) (f ∷ st)).1 in
      after_fields (next failed) f st _ (λ g. run_fields-Keeps (next failed) g st)
        (container-Keeps frame_kv_list key (λ s. run_fields child s) f st
          (run_fields-Keeps child (fresh frame_kv_list key) (f ∷ st)))
  run_fields-Keeps (array key child next) f st =
      let failed = (add_container frame_array key (λ s. run_elements child s) (f ∷ st)).1 in
      after_fields (next failed) f st _ (λ g. run_fields-Keeps (next failed) g st)
        (container-Keeps frame_array key (λ s. run_elements child s) f st
          (run_elements-Keeps child (fresh frame_array key) (f ∷ st)))

  run_elements-Keeps :
      (s : Elements) (f : Frame) (st : Stack) → Keeps f st (run_elements s (f ∷ st)).0
  run_elements-Keeps (stop failed) f st = at_start f st
  run_elements-Keeps (append v next) f st =
      after_elements next f st _ (λ g. run_elements-Keeps next g st)
        (element_grows (any_value v) f st)
  run_elements-Keeps (append_any v next) f st =
      after_elements (next (append_reflected v (f ∷ st)).1) f st _
        (λ g. run_elements-Keeps (next (append_reflected v (f ∷ st)).1) g st)
        (appended_grows v f st)
  run_elements-Keeps (append_object child next) f st =
      let failed = (add_container frame_kv_list [] (λ s. run_fields child s) (f ∷ st)).1 in
      after_elements (next failed) f st _ (λ g. run_elements-Keeps (next failed) g st)
        (container-Keeps frame_kv_list [] (λ s. run_fields child s) f st
          (run_fields-Keeps child (fresh frame_kv_list []) (f ∷ st)))
  run_elements-Keeps (append_array child next) f st =
      let failed = (add_container frame_array [] (λ s. run_elements child s) (f ∷ st)).1 in
      after_elements (next failed) f st _ (λ g. run_elements-Keeps (next failed) g st)
        (container-Keeps frame_array [] (λ s. run_elements child s) f st
          (run_elements-Keeps child (fresh frame_array []) (f ∷ st)))

-- Whatever a marshaler did before it failed, a rollback to the snapshot in front of it finds the state as
-- it was.
pub rollback-run_fields :
    (s : Fields) (f : Frame) (st : Stack)
    → rollback (snap (f ∷ st)) (run_fields s (f ∷ st)).0 ≡ f ∷ st
rollback-run_fields s f st = rollback-Keeps f st (run_fields s (f ∷ st)).0 (run_fields-Keeps s f st)
