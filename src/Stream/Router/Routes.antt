-- ===== src/Stream/Router/Routes.antt =====
-- What a call of the router's `work` posts on each output port.
use pothos_blocks.Shared.{
  ℕ, zero, suc, ◌+◌, ◌<◌, ◌≡◌, ◌≢◌, refl, sym, ap, ◌∙◌, Bool, false, List, [], ◌∷◌, map, length,
  set, get_elem?, Option, none, some, ◌==◌, if◌then◌else◌, arith, Bool-cases, inl, inr, returns,
  length-set, get_elem?-set_self, get_elem?-set_ne,
}
use pothos_blocks.Stream.Router.{
  Router, Traffic, destination, taken, left, add, route, route_all, work,
}

-- The traffic is added one after the other.
abbrev pub merge : Traffic → List Traffic → Traffic
merge u [] = u
merge u (t ∷ ts) = merge (add u t) ts

-- whether a destination is port `j`
abbrev pub is_port : ℕ → Option ℕ → Bool
is_port j none = false
is_port j (some n) = n == j

-- What the input ports from port `i` on have for output port `j`, in order.
abbrev pub routed : Router → ℕ → ℕ → List Traffic → List Traffic
routed s j i [] = []
routed s j i (t ∷ ts) =
    let rest = routed s j (i + 1) ts in if is_port j (destination s i) then taken t ∷ rest else rest

-- Output port `j`, if there is one, has more.
abbrev pub plus : Option Traffic → List Traffic → Option Traffic
plus none ts = none
plus (some u) ts = some (merge u ts)

get_elem?-lt {ℓ} :
    {A : Type ℓ} (xs : List A) (n : ℕ) → n < length xs → (a : A) × (get_elem? xs n ≡ some a)
get_elem?-lt [] n h = absurd (omega arith)
get_elem?-lt (x ∷ xs) zero h = (x, refl)
get_elem?-lt (x ∷ xs) (suc n) h = get_elem?-lt xs n (omega (arith, h))

plus-none : (o : Option Traffic) → o ≡ plus o []
plus-none none = refl
plus-none (some u) = refl

plus-append :
    (o : Option Traffic) (t : Traffic) (ts : List Traffic)
    → plus (plus o (t ∷ [])) ts ≡ plus o (t ∷ ts)
plus-append none t ts = refl
plus-append (some u) t ts = refl

-- what goes to port `j` from an input port with this destination
abbrev share : Option ℕ → ℕ → Traffic → List Traffic
share d j t = if is_port j d then taken t ∷ [] else []

port-update :
    (n j : ℕ) (u t : Traffic) (outs : List Traffic)
    → n < length outs
    → get_elem? outs n ≡ some u
    → get_elem? (set outs n (add u (taken t))) j ≡ plus (get_elem? outs j) (share (some n) j t)
port-update n j u t outs h there = elim (Bool-cases (n == j)) [
  | inl e ↦
      let same : n ≡ j = ground (arith, e) in
      rw (e, sym same, there) (get_elem?-set_self outs n (add u (taken t)) h)
  | inr e ↦
      let other : n ≢ j = ground (arith, e) in
      rw e (get_elem?-set_ne outs (add u (taken t)) other ∙ plus-none (get_elem? outs j))
]

-- One input port whose destination is an output port.
route-step :
    (d : Option ℕ) (t : Traffic) (outs : List Traffic)
    → ((n : ℕ) → d ≡ some n → n < length outs)
    → (outs' : List Traffic) × (route d t outs ≡ returns outs')
      × (length outs' ≡ length outs)
      × ((j : ℕ) → get_elem? outs' j ≡ plus (get_elem? outs j) (share d j t))
unfolding route
route-step none t outs ok = (outs, refl, refl, λ j. plus-none (get_elem? outs j))
route-step (some n) t outs ok =
    let (u, there) = get_elem?-lt outs n (ok n refl) in
    (
      set outs n (add u (taken t)),
      rw (there, route) refl,
      length-set outs n (add u (taken t)),
      λ j. port-update n j u t outs (ok n refl) there,
    )

routed-share :
    (s : Router) (j i : ℕ) (t : Traffic) (ts : List Traffic) (o : Option Traffic)
    → plus (plus o (share (destination s i) j t)) (routed s j (i + 1) ts)
      ≡ plus o (routed s j i (t ∷ ts))
routed-share s j i t ts o = elim (Bool-cases (is_port j (destination s i))) [
  | inl e ↦ rw e (plus-append o (taken t) (routed s j (i + 1) ts))
  | inr e ↦ rw e (ap (λ p. plus p (routed s j (i + 1) ts)) (sym (plus-none o)))
]

route_all-routes :
    (s : Router) (i : ℕ) (ins outs : List Traffic)
    → ((k n : ℕ) → destination s k ≡ some n → n < length outs)
    → let (o, outs', rest) = route_all s i ins outs in
      (o ≡ returns tt)
      × (rest ≡ map left ins)
      × ((j : ℕ) → get_elem? outs' j ≡ plus (get_elem? outs j) (routed s j i ins))
unfolding route_all
route_all-routes s i [] outs ok = (refl, refl, λ j. plus-none (get_elem? outs j))
route_all-routes s i (t ∷ ts) outs ok =
    let (outs', e, len, gives) = route-step (destination s i) t outs (ok i) in
    let (a, b, c) = route_all-routes s (i + 1) ts outs' (λ k n h. rw len (ok k n h)) in
    rw (e, route_all)
      (
        a,
        ap (λ r. left t ∷ r) b,
        λ j.
            c j
            ∙ ap (λ o. plus o (routed s j (i + 1) ts)) (gives j)
            ∙ routed-share s j i t ts (get_elem? outs j),
      )

-- Let every destination of the router be an output port or negative. Then `work` does not throw; each
-- output port is posted what the input ports routed to it have, port by port in order: of each a
-- message, all labels and its buffer, behind what was posted before; and nothing but the other
-- messages is left at any input port, routed or not.
pub work-routes :
    (s : Router) (ins outs : List Traffic) (j : ℕ)
    → ((k n : ℕ) → destination s k ≡ some n → n < length outs)
    → let (o, outs', rest) = work s ins outs in
      (o ≡ returns tt)
      × (rest ≡ map left ins)
      × (get_elem? outs' j ≡ plus (get_elem? outs j) (routed s j 0 ins))
unfolding work
work-routes s ins outs j ok = let (a, b, c) = route_all-routes s 0 ins outs ok in (a, b, c j)
