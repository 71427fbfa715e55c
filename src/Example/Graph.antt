-- ===== src/Example/Graph.antt =====
-- The program graph (graph/graph.cpp) over graphs that are a number and a list of edges.
use asio_tcp.Base.{ℕ, ◌≡◌, refl, List, [], ◌∷◌, map, arith}
use asio_tcp.Graph.{
  AdjacencyList, label, vertex, up_from, pairs, printed, num_vertices, edge_array, Within,
  graph_main, graph_main-lines,
}

instance abbrev edge_list : AdjacencyList
edge_list = record {
  Graph = ℕ × List (ℕ × ℕ);
  Edge = ℕ × ℕ;
  graph = λ n. (n, []);
  add_edge = λ a b g. (g.0, (a, b) ∷ g.1);
  vertices = λ g. up_from 0 g.0;
  edges = λ g. g.1;
  source = λ e. e.0;
  target = λ e. e.1;
  vertices-graph = λ n. refl;
  vertices-add_edge = λ a b g from to. refl;
  edges-graph = λ n. refl;
  edges-add_edge = λ a b g u v from to. refl;
}

joined : Within num_vertices edge_array
joined = (
  omega arith,
  omega arith,
  (
    omega arith,
    omega arith,
    (
      omega arith,
      omega arith,
      (
        omega arith,
        omega arith,
        (omega arith, omega arith, (omega arith, omega arith, (omega arith, omega arith, tt))),
      ),
    ),
  ),
)

graph_main-lines_example :
    ((graph_main num_vertices edge_array).0 ≡ label "vertices(g) = " ∷ map vertex (up_from 0 5))
    × ((u v : ℕ) → printed u v (graph_main num_vertices edge_array).1 ≡ pairs u v edge_array)
graph_main-lines_example = graph_main-lines num_vertices edge_array joined
