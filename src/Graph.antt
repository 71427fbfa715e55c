-- ===== src/Graph.antt =====
-- The program graph (graph/graph.cpp): a graph is made of an array of edges, and its vertices and
-- edges are printed. The Boost Graph Library is an interface with what it documents of an
-- adjacency_list over vectors.
use asio_tcp.Base.{
  ℕ, zero, suc, ◌+◌, ◌<◌, ◌≡◌, refl, ap, ◌∙◌, List, [], ◌∷◌, String, length, map, ◌==◌, ◌&&◌,
  if◌then◌else◌, arith,
}

-- The numbers from `i` on, `n` of them.
abbrev pub up_from : ℕ → ℕ → List ℕ
up_from i zero = []
up_from i (suc n) = i ∷ up_from (suc i) n

-- How often a pair stands in a list.
abbrev pub pairs : ℕ → ℕ → List (ℕ × ℕ) → ℕ
pairs u v [] = 0
pairs u v (e ∷ es) = (if (e.0 == u) && (e.1 == v) then 1 else 0) + pairs u v es

-- adjacency_list<vecS, vecS, bidirectionalS>: the vertices are numbers; nothing is said of the order
-- of the edges.
pub record AdjacencyList : Type 1 where
  pub Graph : Type 0
  pub Edge : Type 0
  pub graph : ℕ → Graph
  pub add_edge : ℕ → ℕ → Graph → Graph
  pub vertices : Graph → List ℕ
  pub edges : Graph → List Edge
  pub source : Edge → ℕ
  pub target : Edge → ℕ
  pub vertices-graph : (n : ℕ) → vertices (graph n) ≡ up_from 0 n
  pub vertices-add_edge :
      (a b : ℕ) (g : Graph)
      → a < length (vertices g)
      → b < length (vertices g)
      → vertices (add_edge a b g) ≡ vertices g
  pub edges-graph : (n : ℕ) → edges (graph n) ≡ []
  pub edges-add_edge :
      (a b : ℕ) (g : Graph) (u v : ℕ)
      → a < length (vertices g)
      → b < length (vertices g)
      → pairs u v (map (λ e. (source e, target e)) (edges (add_edge a b g)))
        ≡ pairs u v ((a, b) ∷ map (λ e. (source e, target e)) (edges g))

-- What is printed: a label, the index of a vertex and a space, or an edge in parentheses and a space.
pub data Piece : Type 0 where
  label : String → Piece
  vertex : ℕ → Piece
  edge : ℕ → ℕ → Piece

-- A, B, C, D and E, and the edges between them.
abbrev pub num_vertices : ℕ
num_vertices = 5

abbrev pub edge_array : List (ℕ × ℕ)
edge_array = (0, 1) ∷ (0, 3) ∷ (2, 0) ∷ (3, 2) ∷ (2, 4) ∷ (1, 3) ∷ (3, 4) ∷ []

-- How often an edge is printed.
abbrev pub printed : ℕ → ℕ → List Piece → ℕ
printed u v [] = 0
printed u v (label s ∷ out) = printed u v out
printed u v (vertex k ∷ out) = printed u v out
printed u v (edge a b ∷ out) = (if (a == u) && (b == v) then 1 else 0) + printed u v out

-- The ends of all edges are vertices.
abbrev pub Within : ℕ → List (ℕ × ℕ) → Type 0
Within n [] = Unit {0}
Within n (e ∷ es) = (e.0 < n) × (e.1 < n) × Within n es

module _ ⦃bgl : AdjacencyList⦄ where
  -- The loop over edge_array.
  unfoldable pub add_edges : List (ℕ × ℕ) → bgl.Graph → bgl.Graph
  add_edges [] g = g
  add_edges (e ∷ es) g = add_edges es (bgl.add_edge e.0 e.1 g)

  unfoldable pub vertices_line : bgl.Graph → List Piece
  vertices_line g = label "vertices(g) = " ∷ map vertex (bgl.vertices g)

  unfoldable pub edges_line : bgl.Graph → List Piece
  edges_line g = label "edges(g) = " ∷ map (λ e. edge (bgl.source e) (bgl.target e)) (bgl.edges g)

  -- main, for `n` vertices and any array of edges.
  unfoldable pub graph_main : ℕ → List (ℕ × ℕ) → List Piece × List Piece
  unfolding add_edges vertices_line edges_line
  graph_main n array = let g = add_edges array (bgl.graph n) in (vertices_line g, edges_line g)

  abbrev ends : bgl.Graph → List (ℕ × ℕ)
  ends g = map (λ e. (bgl.source e, bgl.target e)) (bgl.edges g)

  vertices-add_edges :
      (es : List (ℕ × ℕ)) (g : bgl.Graph)
      → Within (length (bgl.vertices g)) es
      → bgl.vertices (add_edges es g) ≡ bgl.vertices g
  unfolding add_edges
  vertices-add_edges [] g h = refl
  vertices-add_edges (e ∷ es) g (from, to, h) =
      let same = bgl.vertices-add_edge e.0 e.1 g from to in
      vertices-add_edges es (bgl.add_edge e.0 e.1 g) (rw same h) ∙ same

  pairs-add_edges :
      (u v : ℕ) (es : List (ℕ × ℕ)) (g : bgl.Graph)
      → Within (length (bgl.vertices g)) es
      → pairs u v (ends (add_edges es g)) ≡ pairs u v es + pairs u v (ends g)
  unfolding add_edges
  pairs-add_edges u v [] g h = omega arith
  pairs-add_edges u v (e ∷ es) g (from, to, h) =
      let same = bgl.vertices-add_edge e.0 e.1 g from to in
      omega (
        arith,
        pairs-add_edges u v es (bgl.add_edge e.0 e.1 g) (rw same h),
        bgl.edges-add_edge e.0 e.1 g u v from to,
      )

  printed-edges :
      (u v : ℕ) (es : List bgl.Edge)
      → printed u v (map (λ e. edge (bgl.source e) (bgl.target e)) es)
        ≡ pairs u v (map (λ e. (bgl.source e, bgl.target e)) es)
  printed-edges u v [] = refl
  printed-edges u v (e ∷ es) =
      ap ((if (bgl.source e == u) && (bgl.target e == v) then 1 else 0) +◌) (printed-edges u v es)

  length-up_from : (i n : ℕ) → length (up_from i n) ≡ n
  length-up_from i zero = refl
  length-up_from i (suc n) = ap suc (length-up_from (suc i) n)

  -- For an array whose edges join the vertices, the program prints each vertex once, in order, and
  -- each edge as often as it stands in the array.
  pub graph_main-lines :
      (n : ℕ) (array : List (ℕ × ℕ))
      → Within n array
      → ((graph_main n array).0 ≡ label "vertices(g) = " ∷ map vertex (up_from 0 n))
        × ((u v : ℕ) → printed u v (graph_main n array).1 ≡ pairs u v array)
  unfolding graph_main vertices_line edges_line
  graph_main-lines n array h = (
    ap (λ vs. label "vertices(g) = " ∷ map vertex vs)
        (vertices-add_edges array (bgl.graph n) joined ∙ bgl.vertices-graph n),
    λ u v.
        printed-edges u v _
        ∙ pairs-add_edges u v array (bgl.graph n) joined
        ∙ rw (bgl.edges-graph n) (omega arith),
  )
    where
      joined : Within (length (bgl.vertices (bgl.graph n))) array
      joined = rw (bgl.vertices-graph n, length-up_from 0 n) h
