-- ===== src/PacketQueue/Chain.antt =====
-- What a linked queue stands for: the cells from the front to the rear.
use rpi_hadoop.Prelude.{
  ◌≡◌, ◌≢◌, refl, sym, ◌∙◌, List, [], ◌∷◌, ◌++◌, Option, none, some, All, All-append, arith, length,
}
use rpi_hadoop.PacketQueue.{Packet, Ptr, null, Node, Heap, put, Queue}

-- Address and packet of each node, in order.
abbrev pub Cells : Type 0
Cells = List (Ptr × Packet)

abbrev pub Apart : Ptr → Cells → Type 0
Apart a = All (λ c. c.0 ≢ a)

-- From the node at `p`, which holds `d`, the `ptr` fields lead through distinct cells to `rear`.
abbrev pub Chain : Heap → Ptr → Packet → Cells → Ptr → Type 0
Chain h p d [] rear = (p ≢ null) × (h p ≡ some (record { contents = d; ptr = null })) × (rear ≡ p)
Chain h p d ((a, e) ∷ cells) rear =
    (p ≢ null)
    × (h p ≡ some (record { contents = d; ptr = a }))
    × Apart p ((a, e) ∷ cells)
    × Chain h a e cells rear

abbrev pub Linked : Heap → Ptr → Ptr → Cells → Type 0
Linked h front rear [] = (front ≡ null) × (rear ≡ null)
Linked h front rear ((a, d) ∷ cells) = (front ≡ a) × Chain h a d cells rear

pub record IsQueue (h : Heap) (q : Queue) (cells : Cells) : Type 0 where
  pub linked : Linked h q.front q.rear cells
  pub counted : q.count ≡ length cells

-- The two heaps agree on the cells.
abbrev pub AgreeOn : Heap → Heap → Cells → Type 0
AgreeOn h g = All (λ c. g c.0 ≡ h c.0)

pub Chain-frame :
    (h g : Heap) (p : Ptr) (d : Packet) (cells : Cells) (rear : Ptr)
    → Chain h p d cells rear
    → g p ≡ h p
    → AgreeOn h g cells
    → Chain g p d cells rear
Chain-frame h g p d [] rear (ne, at_p, end) e all = (ne, e ∙ at_p, end)
Chain-frame h g p d ((a, x) ∷ cells) rear (ne, at_p, apart, rest) e (same, all) =
    (ne, e ∙ at_p, apart, Chain-frame h g a x cells rear rest same all)

pub AgreeOn-put :
    (h : Heap) (a : Ptr) (n : Option Node) (cells : Cells)
    → Apart a cells
    → AgreeOn h (put h a n) cells
AgreeOn-put h a n [] h' = tt
AgreeOn-put h a n ((b, d) ∷ cells) (ne, apart) = (ground arith, AgreeOn-put h a n cells apart)

-- An address that holds no node is none of the chain's.
pub Apart-of_none :
    (h : Heap) (rear a p : Ptr) (d : Packet) (cells : Cells)
    → Chain h p d cells rear
    → h a ≡ none
    → (p ≢ a) × Apart a cells
Apart-of_none h rear a p d [] (ne, at_p, end) unused =
    ((λ e. let x : h p ≡ none = rw e unused in ground arith), tt)
Apart-of_none h rear a p d ((b, x) ∷ cells) (ne, at_p, apart, rest) unused = (
  (λ e. let y : h p ≡ none = rw e unused in ground arith),
  Apart-of_none h rear a b x cells rest unused,
)

pub rear-ne :
    (h : Heap) (b : Ptr) (x : Packet) (cells : Cells) (rear p : Ptr)
    → Chain h b x cells rear
    → Apart p ((b, x) ∷ cells)
    → rear ≢ p
rear-ne h b x [] rear p (ne, at_b, end) (apart, _) = λ e. apart (sym end ∙ e)
rear-ne h b x ((c, y) ∷ cells) rear p (ne, at_b, _, rest) (apart, aparts) =
    rear-ne h c y cells rear p rest aparts

-- The heap after `e` is written to a new cell `a`, and the node at `rear` is made to point there.
abbrev pub extended : Heap → Ptr → Packet → Ptr → Node → Heap
extended h a e rear n =
    put (put h a (some (record { contents = e; ptr = null }))) rear (some (record n { ptr = a }))

-- A chain grows by one cell at its rear.
pub Chain-snoc :
    (h : Heap) (p : Ptr) (d : Packet) (cells : Cells) (rear a : Ptr) (e : Packet)
    → Chain h p d cells rear
    → a ≢ null
    → h a ≡ none
    → (n : Node) × (h rear ≡ some n)
      × (rear ≢ a)
      × Chain (extended h a e rear n) p d (cells ++ (a, e) ∷ []) a
Chain-snoc h p d [] rear a e (ne, at_p, end) new unused =
    let out : p ≢ a = (Apart-of_none h rear a p d [] (ne, at_p, end) unused).0 in
    (
      record { contents = d; ptr = null },
      rw end at_p,
      (λ q. out (sym end ∙ q)),
      (ne, ground arith, ((λ q. out (sym q)), tt), (new, ground arith, refl)),
    )
Chain-snoc h p d ((b, x) ∷ cells) rear a e (ne, at_p, apart, rest) new unused =
    let (n, at_rear, out, chain) = Chain-snoc h b x cells rear a e rest new unused in
    let p-a : p ≢ a =
      (Apart-of_none h rear a p d ((b, x) ∷ cells) (ne, at_p, apart, rest) unused).0 in
    let rear-p : rear ≢ p = rear-ne h b x cells rear p rest apart in
    (
      n,
      at_rear,
      out,
      (
        ne,
        ground arith,
        All-append (λ (c : Ptr × Packet). c.0 ≢ p) ((b, x) ∷ cells) ((a, e) ∷ []) apart
            ((λ q. p-a (sym q)), tt),
        chain,
      ),
    )

pub rear_ne_null :
    (h : Heap) (p : Ptr) (d : Packet) (cells : Cells) (rear : Ptr)
    → Chain h p d cells rear
    → rear ≢ null
rear_ne_null h p d [] rear (ne, at_p, end) = λ q. ne (sym end ∙ q)
rear_ne_null h p d ((a, x) ∷ cells) rear (ne, at_p, apart, rest) =
    rear_ne_null h a x cells rear rest

pub front_ne_null :
    (h : Heap) (p : Ptr) (d : Packet) (cells : Cells) (rear : Ptr)
    → Chain h p d cells rear
    → p ≢ null
front_ne_null h p d [] rear (ne, at_p, end) = ne
front_ne_null h p d ((a, x) ∷ cells) rear (ne, at_p, apart, rest) = ne
