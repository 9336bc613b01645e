-- ===== src/Tests/Front.antt =====
-- src/mdx at short statements.
use mallard_cube.Prelude.{
  ℕ, ◌<◌, ◌≡◌, refl, subst, ◌≢◌, inl, inr, true, ◌&&◌, none, some, List, [], ◌∷◌, arith,
  if◌then◌else◌, Bool-cases, any, All, Text, codes, text_eq, to_lower, eq_ignore_case,
}
use mallard_cube.Mdx.Outcome.{ok, out_of_fuel, Ends}
use mallard_cube.Mdx.Ast.{
  members, range, number, MemberRef, Expr, Axis, Clauses, Select, plain, member, set, call, nil,
  cons,
}
use mallard_cube.Mdx.Lexer.{Token, bracket, dot, lex, lex_from, lex_step, closed, until, punct}
use mallard_cube.Mdx.Lexer.Render.{render, IsLexical}
use mallard_cube.Mdx.Lexer.Scan.{lex-render-lex}
use mallard_cube.Mdx.Parser.{parse_set_expr}
use mallard_cube.Mdx.Parser.Print.{
  print, print_member, print_parts, print_key, print_items, print_more, Printable, base, whole,
  a_member, set_of, call_of, members_of, a_number, a_base, an_operand, range_of, none_left,
  and_then,
}
use mallard_cube.Mdx.Parser.RoundTrip.{parse_set_expr-render}
use mallard_cube.Mdx.Parser.Statement.{parse_select}
use mallard_cube.Mdx.Parser.Statement.Whole.{parse_select_total}
use mallard_cube.Mdx.Axes.{axes, has, axis_dimension_ids, clauses}
use mallard_cube.Mdx.Axes.Sorting.{Reordered, swap}
use mallard_cube.Mdx.Axes.Dimensions.{is_listed, some_names, has-axis_dimension_ids}
use mallard_cube.Mdx.Sets.Named.{Sets, find_set, expand_named_sets}
use mallard_cube.Mdx.Sets.Named.Expansion.{
  Refs, IsClosed, Descends, expand_named_sets-IsClosed, expand_named_sets-diverges,
}

abbrev source : Text
source = codes "[Date].[Year]"

abbrev tokens : List Token
tokens = bracket (codes "Date") ∷ dot ∷ bracket (codes "Year") ∷ []

lexed : lex source ≡ ok tokens
unfolding lex lex_from lex_step closed until punct
lexed = refl

lex-render-lex_example : lex (render tokens) ≡ ok tokens
lex-render-lex_example = lex-render-lex source tokens lexed

tokens-IsLexical : All IsLexical tokens
tokens-IsLexical = (refl, (tt, (refl, tt)))

parse_select_total_example :
    parse_select (codes "SELECT {[Date].[Year].Members} ON COLUMNS FROM [Sales]") ≢ out_of_fuel
parse_select_total_example =
    parse_select_total (codes "SELECT {[Date].[Year].Members} ON COLUMNS FROM [Sales]")

abbrev named : List Text → Expr
named parts = member (record { parts = parts; key = none })

abbrev columns : Axis
columns = record {
  ordinal = 0;
  non_empty = true;
  exprs = cons (named (codes "Date" ∷ codes "Year" ∷ [])) nil;
}

abbrev rows : Axis
rows = record {
  ordinal = 1;
  non_empty = true;
  exprs = cons (call (codes "Hierarchize") (cons (named (codes "Store" ∷ [])) nil)) nil;
}

abbrev with_axes : List Axis → Clauses
with_axes more = record {
  axes = more;
  cube = some (codes "Sales");
  where_clause = none;
  cell_props = [];
  dim_props = [];
  with_sets = [];
  with_members = [];
}

abbrev columns_first : Select
columns_first = plain (with_axes (columns ∷ rows ∷ []))

abbrev rows_first : Select
rows_first = plain (with_axes (rows ∷ columns ∷ []))

exchanged : Reordered (axes columns_first) (axes rows_first)
unfolding clauses
exchanged = swap columns rows [] (λ e. absurd (omega (arith, e)))

has-axis_dimension_ids_example : has (codes "Store") (axis_dimension_ids rows_first) ≡ (
    any (λ (a : Axis). some_names (codes "Store") a.exprs) (axes rows_first)
    && is_listed (codes "Store"))
has-axis_dimension_ids_example = has-axis_dimension_ids (codes "Store") rows_first

-- `Last` names a set of one year, `Best` a set that lists `Last`.
abbrev two_sets : Sets
two_sets =
    (codes "Last", set (cons (named (codes "Date" ∷ codes "2024" ∷ [])) nil))
    ∷ (codes "Best", set (cons (named (codes "Last" ∷ [])) nil))
    ∷ []

abbrev rank : Text → ℕ
rank p = if eq_ignore_case (codes "Best") p then 1 else 0

some_injective : {A : Type 0} {a b : A} → some a ≡ some b → a ≡ b
some_injective h = cc

two_sets-Descends : Descends rank two_sets
unfolding find_set
two_sets-Descends p body h = elim (Bool-cases (eq_ignore_case (codes "Last") p)) [
  | inl e ↦
      subst (Refs (λ q. rank q < rank p)) (some_injective (rw e at h)) (unfold Refs in (tt, tt))
  | inr e ↦ elim (Bool-cases (eq_ignore_case (codes "Best") p)) [
    | inl f ↦
        subst (Refs (λ q. rank q < rank p)) (some_injective (rw (e, f) at h))
          (unfold Refs in (last_below p f, tt))
    | inr f ↦ let missed = rw (e, f) at h in cc
  ]
]
  where
    last_below : (p : Text) → eq_ignore_case (codes "Best") p ≡ true → rank (codes "Last") < rank p
    last_below p f = rw f (unfold eq_ignore_case in omega arith)

best_below : Refs (λ p. rank p < 2) (named (codes "Best" ∷ []))
unfolding Refs eq_ignore_case
best_below = omega arith

expand_named_sets-IsClosed_example :
    Ends (IsClosed two_sets) (expand_named_sets 2 two_sets (named (codes "Best" ∷ [])))
expand_named_sets-IsClosed_example =
    expand_named_sets-IsClosed rank two_sets two_sets-Descends 2 (named (codes "Best" ∷ []))
      best_below

abbrev loop : MemberRef
loop = record { parts = codes "A" ∷ []; key = none }

loop_found : find_set (codes "A") ((codes "A", member loop) ∷ []) ≡ some (member loop)
unfolding find_set eq_ignore_case text_eq to_lower
loop_found = refl

expand_named_sets-diverges_example :
    expand_named_sets 100 ((codes "A", member loop) ∷ []) (member loop) ≡ out_of_fuel
expand_named_sets-diverges_example =
    expand_named_sets-diverges 100 ((codes "A", member loop) ∷ []) loop (codes "A") refl loop_found

-- `Head({[Date].[Year].Members, [Date].[Year].&[2024] : [Date].[Year].&[2025]}, 3)`.
abbrev year_key : Text → Expr
year_key k = member (record { parts = codes "Date" ∷ codes "Year" ∷ []; key = some k })

abbrev head_of_years : Expr
head_of_years = call (codes "Head") (
    cons
      (set (
        cons (members (named (codes "Date" ∷ codes "Year" ∷ [])))
          (cons (range (year_key (codes "2024")) (year_key (codes "2025"))) nil)))
      (cons (number (codes "3")) nil))

year_key-Printable : (k : Text) → Printable base (year_key k)
unfolding eq_ignore_case text_eq to_lower
year_key-Printable k = a_member (codes "Date") (codes "Year" ∷ []) (some k) refl

head_of_years-Printable : Printable whole head_of_years
unfolding eq_ignore_case text_eq to_lower
head_of_years-Printable = an_operand (
    a_base (
      call_of (codes "Head") (
        and_then
          (an_operand (
            a_base (
              set_of (
                and_then
                  (an_operand
                    (a_base (members_of (a_member (codes "Date") (codes "Year" ∷ []) none refl))))
                  (and_then
                    (range_of (a_base (year_key-Printable (codes "2024")))
                      (a_base (year_key-Printable (codes "2025"))))
                    none_left)))))
          (and_then (an_operand (a_base (a_number (codes "3")))) none_left))))

printed-IsLexical : All IsLexical (print head_of_years [])
unfolding print print_member print_parts print_key print_items print_more
printed-IsLexical = (
  (refl, refl),
  (
    tt,
    (
      tt,
      (
        refl,
        (
          tt,
          (
            refl,
            (
              tt,
              (
                (refl, refl),
                (
                  tt,
                  (
                    refl,
                    (
                      tt,
                      (
                        refl,
                        (
                          tt,
                          (
                            refl,
                            (
                              tt,
                              (
                                refl,
                                (tt, (refl, (tt, (refl, (tt, (tt, ((refl, refl), (tt, tt)))))))),
                              ),
                            ),
                          ),
                        ),
                      ),
                    ),
                  ),
                ),
              ),
            ),
          ),
        ),
      ),
    ),
  ),
)

parse_set_expr-render_example : parse_set_expr (render (print head_of_years [])) ≡ ok head_of_years
parse_set_expr-render_example = parse_set_expr-render head_of_years-Printable printed-IsLexical
