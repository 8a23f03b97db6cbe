-- ===== src/Scheduler/Server/Routes/Unambiguous.antt =====
-- No two routes of scheduler/server.go take one request.
use riak_mesos_legacy.Base.{
  ◌≡◌, ◌↔◌, ◌⊎◌, refl, sym, ◌∙◌, subst, inl, inr, Bool, true, false, not, ◌&&◌, ◌||◌, List, [], ◌∷◌,
  some, arith, is_empty, Bool-cases, Option-cases,
}
use riak_mesos_legacy.Base.Text.{Text, text_eq, text_eq_iff}
use riak_mesos_legacy.Scheduler.Server.Routes.{Part, word, variable, Handler, Entry, Mux, table}
use riak_mesos_legacy.Scheduler.Server.Routes.Mux.{fit, one_of, takes, answers, dispatch, IsMux}

-- No path fits both templates: their lengths differ, or they have different words at one place.
unfoldable apart : List Part → List Part → Bool
unfolding text_eq
apart [] [] = false
apart [] (_ ∷ _) = true
apart (_ ∷ _) [] = true
apart (word v ∷ s) (word w ∷ t) = not (text_eq v w) || apart s t
apart (word v ∷ s) (variable ∷ t) = apart s t
apart (variable ∷ s) (word w ∷ t) = apart s t
apart (variable ∷ s) (variable ∷ t) = apart s t

-- No method is one of both lists.
unfoldable separate : List Text → List Text → Bool
unfolding one_of text_eq
separate [] l = true
separate (m ∷ k) l = not (one_of m l) && separate k l

-- No request is taken by both.
unfoldable disjoint : Entry → Entry → Bool
unfolding apart separate
disjoint e f =
    apart e.template f.template
    || (not (is_empty e.methods) && not (is_empty f.methods) && separate e.methods f.methods)

unfoldable disjoint_from : Entry → List Entry → Bool
unfolding disjoint
disjoint_from e [] = true
disjoint_from e (f ∷ l) = disjoint e f && disjoint_from e l

unfoldable all_disjoint : List Entry → Bool
unfolding disjoint_from
all_disjoint [] = true
all_disjoint (e ∷ l) = disjoint_from e l && all_disjoint l

table-all_disjoint : all_disjoint table ≡ true
unfolding all_disjoint
table-all_disjoint = refl

-- A template that a path fits.
abbrev Fits : List Part → List Text → Type 0
Fits [] [] = Unit
Fits [] (_ ∷ _) = ⊥
Fits (_ ∷ _) [] = ⊥
Fits (word w ∷ t) (s ∷ p) = (w ≡ s) × Fits t p
Fits (variable ∷ t) (s ∷ p) = Fits t p

fit-Fits : (t : List Part) (p vars : List Text) → fit t p ≡ some vars → Fits t p
unfolding fit
fit-Fits [] [] vars e = tt
fit-Fits [] (s ∷ p) vars e = absurd (cc e)
fit-Fits (x ∷ t) [] vars e = absurd (cc e)
fit-Fits (word w ∷ t) (s ∷ p) vars e = elim (Bool-cases (text_eq w s)) [
  | inl same ↦ ((text_eq_iff w s).0 same, fit-Fits t p vars (rw (fit, same) at e))
  | inr other ↦ absurd (cc (rw (fit, other) at e))
]
fit-Fits (variable ∷ t) (s ∷ p) vars e = elim (Bool-cases (is_empty s)) [
  | inl no_text ↦ absurd (cc (rw (fit, no_text) at e))
  | inr text ↦ elim (Option-cases (fit t p)) [
    | inl f ↦ absurd (cc (rw (fit, text, f) at e))
    | inr (more, f) ↦ fit-Fits t p more f
  ]
]

apart-Fits : (s t : List Part) (p : List Text) → apart s t ≡ true → Fits s p → Fits t p → ⊥
unfolding apart
apart-Fits [] [] p h f g = cc h
apart-Fits [] (y ∷ t) [] h f g = g
apart-Fits [] (y ∷ t) (x ∷ p) h f g = f
apart-Fits (y ∷ s) [] [] h f g = f
apart-Fits (y ∷ s) [] (x ∷ p) h f g = g
apart-Fits (y ∷ s) (y' ∷ t) [] h f g = f
apart-Fits (word v ∷ s) (word w ∷ t) (x ∷ p) h f g = elim (Bool-cases (text_eq v w)) [
  | inl same ↦ apart-Fits s t p (rw same at h) f.1 g.1
  | inr other ↦ cc ((text_eq_iff v w).1 (f.0 ∙ sym g.0), other)
]
apart-Fits (word v ∷ s) (variable ∷ t) (x ∷ p) h f g = apart-Fits s t p h f.1 g
apart-Fits (variable ∷ s) (word w ∷ t) (x ∷ p) h f g = apart-Fits s t p h f g.1
apart-Fits (variable ∷ s) (variable ∷ t) (x ∷ p) h f g = apart-Fits s t p h f g

separate-one_of :
    (m : Text) (k l : List Text) → separate k l ≡ true → one_of m k ≡ true → one_of m l ≡ true → ⊥
unfolding separate one_of
separate-one_of m [] l h a b = cc a
separate-one_of m (x ∷ k) l h a b = elim (Bool-cases (text_eq x m)) [
  | inl same ↦
      let listed : one_of x l ≡ true = rw ((text_eq_iff x m).0 same) b in ground (arith, listed)
  | inr other ↦ separate-one_of m k l (ground arith) (rw other at a) b
]

takes-fit :
    (method : Text) (path : List Text) (e : Entry) (found : Handler × List Text)
    → answers method path e ≡ some found
    → (takes e method ≡ true) × Fits e.template path
unfolding answers
takes-fit method path e found h = elim (Bool-cases (takes e method)) [
  | inr other ↦ absurd (cc (rw (answers, other) at h))
  | inl good ↦ elim (Option-cases (fit e.template path)) [
    | inl f ↦ absurd (cc (rw (answers, good, f) at h))
    | inr (vars, f) ↦ (good, fit-Fits e.template path vars f)
  ]
]

disjoint-answers :
    (method : Text) (path : List Text) (e f : Entry) (x y : Handler × List Text)
    → disjoint e f ≡ true
    → answers method path e ≡ some x
    → answers method path f ≡ some y
    → ⊥
unfolding disjoint
disjoint-answers method path e f x y h a b =
    let (te, fe) = takes-fit method path e x a in
    let (tf, ff) = takes-fit method path f y b in
    elim (Bool-cases (apart e.template f.template)) [
      | inl parted ↦ apart-Fits e.template f.template path parted fe ff
      | inr not_parted ↦
          separate-one_of method e.methods f.methods (ground arith) (ground arith) (ground arith)
    ]

-- The entry is one of the list.
abbrev pub Among : Entry → List Entry → Type 0
Among e [] = ⊥
Among e (f ∷ l) = (e ≡ f) ⊎ Among e l

disjoint_from-Among :
    (e f : Entry) (l : List Entry) → disjoint_from e l ≡ true → Among f l → disjoint e f ≡ true
unfolding disjoint_from
disjoint_from-Among e f [] h i = absurd i
disjoint_from-Among e f (g ∷ l) h (inl same) = rw same (ground arith)
disjoint_from-Among e f (g ∷ l) h (inr i) = disjoint_from-Among e f l (ground arith) i

module _ (method : Text) (path : List Text) (found : Handler × List Text) where
  dispatch-Among :
      (l : List Entry)
      → dispatch l method path ≡ some found
      → (e : Entry) × Among e l × (answers method path e ≡ some found)
  unfolding dispatch
  dispatch-Among [] h = absurd (cc h)
  dispatch-Among (f ∷ l) h = elim (Option-cases (answers method path f)) [
    | inl a ↦ let (e, i, b) = dispatch-Among l (rw (dispatch, a) at h) in (e, inr i, b)
    | inr (x, a) ↦ (f, inl refl, a ∙ (rw (dispatch, a) at h))
  ]

  Among-dispatch :
      (l : List Entry) (e : Entry)
      → all_disjoint l ≡ true
      → Among e l
      → answers method path e ≡ some found
      → dispatch l method path ≡ some found
  unfolding dispatch all_disjoint
  Among-dispatch [] e h i a = absurd i
  Among-dispatch (f ∷ l) e h (inl same) a =
      let b : answers method path f ≡ some found =
        subst (λ x. answers method path x ≡ some found) same a in
      rw (dispatch, b) refl
  Among-dispatch (f ∷ l) e h (inr i) a = elim (Option-cases (answers method path f)) [
    | inl b ↦ rw (dispatch, b) (Among-dispatch l e (ground arith) i a)
    | inr (y, b) ↦
        absurd (
          disjoint-answers method path f e y found (disjoint_from-Among f e l (ground arith) i) b a)
  ]

  -- The order of the routes does not matter: with a router that follows its documentation, a request
  -- goes to a handler with its variables exactly when some entry of the table takes its method and
  -- fits its path so.
  pub mux-table_iff :
      (mux : Mux)
      → IsMux mux
      → (mux table method path ≡ some found)
        ↔ ((e : Entry) × Among e table × (answers method path e ≡ some found))
  mux-table_iff mux is_mux = (
    (λ h. dispatch-Among table (sym (is_mux table method path) ∙ h)),
    (λ (e, i, a). is_mux table method path ∙ Among-dispatch table e table-all_disjoint i a),
  )
