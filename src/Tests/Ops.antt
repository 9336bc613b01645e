-- ===== src/Tests/Ops.antt =====
-- src/mdx/frontend.rs: a Top N on the only axis of a statement.
use mallard_cube.Prelude.{
  ◌≡◌, refl, true, false, none, some, [], ◌∷◌, codes, text_eq, to_lower, eq_ignore_case,
}
use mallard_cube.Mdx.Ast.{
  Expr, Axis, Select, plain, member, members, call, number, measure, nil, cons,
}
use mallard_cube.Mdx.Axes.{clauses}
use mallard_cube.Mdx.SetOps.{top_count, axis_set_op, op_on, op_among, op_in, call_op, num}
use mallard_cube.Mdx.Sets.{nth}
use mallard_cube.Mdx.Parser.Statement.{parse_unsigned, digits}

abbrev stores : Expr
stores = members (member (record { parts = codes "Store" ∷ []; key = none }))

abbrev top_three : Axis
top_three = record {
  ordinal = 1;
  non_empty = true;
  exprs = cons (call (codes "TopCount") (cons stores (cons (number (codes "3")) nil))) nil;
}

abbrev revenue : Axis
revenue = record { ordinal = 0; non_empty = false; exprs = cons (measure (codes "Revenue")) nil }

abbrev asked : Select
asked = plain (record {
  axes = top_three ∷ revenue ∷ [];
  cube = some (codes "Sales");
  where_clause = none;
  cell_props = [];
  dim_props = [];
  with_sets = [];
  with_members = [];
})

top_of_asked : axis_set_op (parse_unsigned 64) (λ n. n) asked ≡ some (top_count 3 true)
unfolding axis_set_op op_on op_among op_in call_op num nth clauses eq_ignore_case text_eq to_lower
    parse_unsigned digits
top_of_asked = refl
