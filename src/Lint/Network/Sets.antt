-- ===== src/Lint/Network/Sets.antt =====
-- The sets and maps of flows of network_policy.rs hold what is put in them.
use catallaxy.Prelude.{
  ◌≡◌, refl, sym, ap, ◌∙◌, subst, ◌⊎◌, inl, inr, true, List, [], ◌∷◌, String, eq_iff, eqb_iff,
  arith, Bool-cases,
}
use mathlib.Core.List.{Memᴰ}
use catallaxy.Lint.Network.{Flow, flow_eq, flow_lt, insert_set}
use catallaxy.Lint.Network.Policies.{insert_flows}
use catallaxy.Lint.Network.Rule.{Required, require, require_each}

pub flow_eq-eq : (f g : Flow) → flow_eq f g ≡ true → f ≡ g
flow_eq-eq f g h =
    let a : f.from ≡ g.from = (eq_iff f.from g.from).0 (ground arith) in
    let b : f.to ≡ g.to = (eq_iff f.to g.to).0 (ground arith) in
    let c : f.port ≡ g.port = (eqb_iff f.port g.port).0 (ground arith) in
    ap (λ x. record { from = x; to = f.to; port = f.port }) a
    ∙ ap (λ x. record { from = g.from; to = x; port = f.port }) b
    ∙ ap (λ x. record { from = g.from; to = g.to; port = x }) c

-- A set holds what was put in it, and no more.
insert_set-Mem :
    (f g : Flow) (set : List Flow)
    → Memᴰ g (insert_set flow_eq flow_lt f set)
    → (g ≡ f) ⊎ Memᴰ g set
unfolding insert_set
insert_set-Mem f g [] (Memᴰ.head e) = inl e
insert_set-Mem f g [] (Memᴰ.tail m) = elim m [ ]
insert_set-Mem f g (s ∷ set) m = elim (Bool-cases (flow_eq f s)) [
  | inl same ↦ inr (rw (same, insert_set) at m)
  | inr differ ↦ elim (Bool-cases (flow_lt f s)) [
    | inl less ↦ elim (rw (differ, less, insert_set) at m) [
      | Memᴰ.head e ↦ inl e
      | Memᴰ.tail n ↦ inr n
    ]
    | inr more ↦ elim (rw (differ, more, insert_set) at m) [
      | Memᴰ.head e ↦ inr (Memᴰ.head e)
      | Memᴰ.tail n ↦ elim (insert_set-Mem f g set n) [ inl e ↦ inl e | inr k ↦ inr (Memᴰ.tail k) ]
    ]
  ]
]

pub insert_flows-Mem :
    (flows out : List Flow) (g : Flow) → Memᴰ g (insert_flows flows out) → Memᴰ g flows ⊎ Memᴰ g out
unfolding insert_flows
insert_flows-Mem [] out g m = inr m
insert_flows-Mem (f ∷ flows) out g m =
    elim (insert_flows-Mem flows (insert_set flow_eq flow_lt f out) g m) [
      | inl n ↦ inl (Memᴰ.tail n)
      | inr n ↦ elim (insert_set-Mem f g out n) [ inl e ↦ inl (Memᴰ.head e) | inr k ↦ inr k ]
    ]

-- A flow that is required is among the required ones, under the first resource that needs it.
unfoldable pub HasFlow : Flow → Required → Type 0
HasFlow f required = (by : String) × Memᴰ (f, by) required

require-HasFlow : (f : Flow) (by : String) (out : Required) → HasFlow f (require f by out)
unfolding require HasFlow
require-HasFlow f by [] = (by, Memᴰ.head refl)
require-HasFlow f by ((g, first) ∷ rest) = elim (Bool-cases (flow_eq f g)) [
  | inl same ↦ rw (same, require) (first, Memᴰ.head (ap (λ x. (x, first)) (flow_eq-eq f g same)))
  | inr differ ↦ elim (Bool-cases (flow_lt f g)) [
    | inl less ↦ rw (differ, less, require) (by, Memᴰ.head refl)
    | inr more ↦
        let (b, m) = require-HasFlow f by rest in rw (differ, more, require) (b, Memᴰ.tail m)
  ]
]

require-old :
    (f g : Flow) (by b : String) (out : Required) → Memᴰ (g, b) out → Memᴰ (g, b) (require f by out)
unfolding require
require-old f g by b [] m = elim m [ ]
require-old f g by b ((h, first) ∷ rest) m = elim (Bool-cases (flow_eq f h)) [
  | inl same ↦ rw (same, require) m
  | inr differ ↦ elim (Bool-cases (flow_lt f h)) [
    | inl less ↦ rw (differ, less, require) (Memᴰ.tail m)
    | inr more ↦
        rw (differ, more, require)
          (elim m [
            | Memᴰ.head e ↦ Memᴰ.head e
            | Memᴰ.tail n ↦ Memᴰ.tail (require-old f g by b rest n)
          ])
  ]
]

require_each-old :
    (flows out : Required) (g : Flow) → HasFlow g out → HasFlow g (require_each flows out)
unfolding require_each HasFlow
require_each-old [] out g h = h
require_each-old ((f, by) ∷ flows) out g (b, m) =
    require_each-old flows (require f by out) g (b, require-old f g by b out m)

pub require_each-HasFlow :
    (flows out : Required) (g : Flow) → HasFlow g flows → HasFlow g (require_each flows out)
unfolding require_each HasFlow
require_each-HasFlow [] out g (b, m) = elim m [ ]
require_each-HasFlow ((f, by) ∷ flows) out g (b, Memᴰ.head e) =
    require_each-old flows (require f by out) g
      (subst (λ q. HasFlow q (require f by out)) (sym (ap (λ q. q.0) e)) (require-HasFlow f by out))
require_each-HasFlow ((f, by) ∷ flows) out g (b, Memᴰ.tail m) =
    require_each-HasFlow flows (require f by out) g (b, m)

-- What is put in a set is in it, and what was in it stays.
insert_set-here : (f : Flow) (set : List Flow) → Memᴰ f (insert_set flow_eq flow_lt f set)
unfolding insert_set
insert_set-here f [] = Memᴰ.head refl
insert_set-here f (s ∷ set) = elim (Bool-cases (flow_eq f s)) [
  | inl same ↦ rw (same, insert_set) (Memᴰ.head (flow_eq-eq f s same))
  | inr differ ↦ elim (Bool-cases (flow_lt f s)) [
    | inl less ↦ rw (differ, less, insert_set) (Memᴰ.head refl)
    | inr more ↦ rw (differ, more, insert_set) (Memᴰ.tail (insert_set-here f set))
  ]
]

insert_set-old :
    (f g : Flow) (set : List Flow) → Memᴰ g set → Memᴰ g (insert_set flow_eq flow_lt f set)
unfolding insert_set
insert_set-old f g [] m = elim m [ ]
insert_set-old f g (s ∷ set) m = elim (Bool-cases (flow_eq f s)) [
  | inl same ↦ rw (same, insert_set) m
  | inr differ ↦ elim (Bool-cases (flow_lt f s)) [
    | inl less ↦ rw (differ, less, insert_set) (Memᴰ.tail m)
    | inr more ↦
        rw (differ, more, insert_set)
          (elim m [
            | Memᴰ.head e ↦ Memᴰ.head e
            | Memᴰ.tail n ↦ Memᴰ.tail (insert_set-old f g set n)
          ])
  ]
]

insert_flows-old : (flows out : List Flow) (g : Flow) → Memᴰ g out → Memᴰ g (insert_flows flows out)
unfolding insert_flows
insert_flows-old [] out g m = m
insert_flows-old (f ∷ flows) out g m =
    insert_flows-old flows (insert_set flow_eq flow_lt f out) g (insert_set-old f g out m)

pub Mem-insert_flows :
    (flows out : List Flow) (g : Flow) → Memᴰ g flows → Memᴰ g (insert_flows flows out)
unfolding insert_flows
Mem-insert_flows [] out g m = elim m [ ]
Mem-insert_flows (f ∷ flows) out g (Memᴰ.head e) =
    insert_flows-old flows (insert_set flow_eq flow_lt f out) g
      (subst (λ q. Memᴰ q (insert_set flow_eq flow_lt f out)) (sym e) (insert_set-here f out))
Mem-insert_flows (f ∷ flows) out g (Memᴰ.tail m) =
    Mem-insert_flows flows (insert_set flow_eq flow_lt f out) g m

require-Mem :
    (f : Flow) (by : String) (out : Required) (q : Flow × String)
    → Memᴰ q (require f by out)
    → (q ≡ (f, by)) ⊎ Memᴰ q out
unfolding require
require-Mem f by [] q (Memᴰ.head e) = inl e
require-Mem f by [] q (Memᴰ.tail m) = elim m [ ]
require-Mem f by ((h, first) ∷ rest) q m = elim (Bool-cases (flow_eq f h)) [
  | inl same ↦ inr (rw (same, require) at m)
  | inr differ ↦ elim (Bool-cases (flow_lt f h)) [
    | inl less ↦ elim (rw (differ, less, require) at m) [
      | Memᴰ.head e ↦ inl e
      | Memᴰ.tail n ↦ inr n
    ]
    | inr more ↦ elim (rw (differ, more, require) at m) [
      | Memᴰ.head e ↦ inr (Memᴰ.head e)
      | Memᴰ.tail n ↦ elim (require-Mem f by rest q n) [ inl e ↦ inl e | inr k ↦ inr (Memᴰ.tail k) ]
    ]
  ]
]

pub require_each-Mem :
    (flows out : Required) (q : Flow × String)
    → Memᴰ q (require_each flows out)
    → Memᴰ q flows ⊎ Memᴰ q out
unfolding require_each
require_each-Mem [] out q m = inr m
require_each-Mem ((f, by) ∷ flows) out q m = elim (require_each-Mem flows (require f by out) q m) [
  | inl n ↦ inl (Memᴰ.tail n)
  | inr n ↦ elim (require-Mem f by out q n) [ inl e ↦ inl (Memᴰ.head e) | inr k ↦ inr k ]
]
