-- ===== src/Engine/Normalize.antt =====
-- src/engine/normalize.rs: the key of a plan, under which its result is cached. How floating-point
-- and signed numbers are written, and how a text is quoted for debugging, are arguments.
pub mod Alike
pub mod Commas
use mallard_cube.Prelude.{
  ℕ, zero, suc, ◌+◌, ◌/◌, ◌%◌, Bool, true, false, not, ◌||◌, Option, none, some, List, [], ◌∷◌,
  ◌++◌, map, ltb, if◌then◌else◌, is_empty, any, keep, Text, codes, sort_by,
}
use mallard_cube.Access.Config.{is_present}
use mallard_cube.Mdx.Ast.{CmpOp, gt, ge, lt, le, eq, ne}
use mallard_cube.Mdx.Parser.{join}
use mallard_cube.Mdx.SetOps.{AxisSetOp}
use mallard_cube.Engine.Plan.{
  DateWindow, LabelFilter, TypedDimensionFilter, TupleCell, QueryPlan, total, group_by,
  multi_measure, tuple_set, multi_group_by, count, meta_count, meta_count_literal, measures_list,
  set_members, empty,
}

-- The digits of a number, at most so many; a number of 64 bits has no more than 20.
unfoldable pub digits : ℕ → ℕ → Text
digits zero n = []
digits (suc fuel) n =
    let rest = digits fuel (n / 10) in
    if ltb n 10 then (48 + n) ∷ [] else rest ++ (48 + n % 10) ∷ []

unfoldable pub decimal : ℕ → Text
unfolding digits
decimal n = digits 20 n

unfoldable pub bool_text : Bool → Text
bool_text true = codes "true"
bool_text false = codes "false"

unfoldable pub cmp_text : CmpOp → Text
cmp_text gt = codes "Gt"
cmp_text ge = codes "Ge"
cmp_text lt = codes "Lt"
cmp_text le = codes "Le"
cmp_text eq = codes "Eq"
cmp_text ne = codes "Ne"

unfoldable pub some_text : Option Text → Text
some_text none = codes "None"
some_text (some t) = codes "Some(" ++ (t ++ codes ")")

unfoldable pub level_text : Option ℕ → Text
unfolding some_text decimal
level_text none = some_text none
level_text (some n) = some_text (some (decimal n))

unfoldable pub levels_text : List (Option ℕ) → Text
unfolding level_text
levels_text ls = codes "[" ++ (join (codes ", ") (map level_text ls) ++ codes "]")

unfoldable pub text_or_empty : Option Text → Text
text_or_empty none = []
text_or_empty (some t) = t

pub record Formats (F I : Type 0) : Type 0 where
  pub float : F → Text
  pub signed : I → Text
  pub quoted : Text → Text

module _ {F I : Type 0} (formats : Formats F I) where
  unfoldable pub set_op_suffix : Option (AxisSetOp F) → Text
  unfolding decimal bool_text cmp_text
  set_op_suffix none = []
  set_op_suffix (some (AxisSetOp.top_count n desc)) =
      codes "|setop=topcount:" ++ (decimal n ++ (codes ":" ++ bool_text desc))
  set_op_suffix (some (AxisSetOp.top_count_filter n desc)) =
      codes "|setop=topcountfilter:" ++ (decimal n ++ (codes ":" ++ bool_text desc))
  set_op_suffix (some (AxisSetOp.top_percent p)) = codes "|setop=toppercent:" ++ formats.float p
  set_op_suffix (some (AxisSetOp.order desc)) = codes "|setop=order:" ++ bool_text desc
  set_op_suffix (some (AxisSetOp.filter op value)) =
      codes "|setop=filter:" ++ (cmp_text op ++ (codes ":" ++ formats.float value))

  unfoldable pub label_call : Text → Text → Text
  label_call name t = name ++ (codes "(" ++ (formats.quoted t ++ codes ")"))

  unfoldable pub label_text : LabelFilter → Text
  unfolding label_call
  label_text (LabelFilter.eq t) = label_call (codes "Eq") t
  label_text (LabelFilter.ne t) = label_call (codes "Ne") t
  label_text (LabelFilter.begins_with t) = label_call (codes "BeginsWith") t
  label_text (LabelFilter.does_not_begin_with t) = label_call (codes "DoesNotBeginWith") t
  label_text (LabelFilter.ends_with t) = label_call (codes "EndsWith") t
  label_text (LabelFilter.does_not_end_with t) = label_call (codes "DoesNotEndWith") t
  label_text (LabelFilter.contains t) = label_call (codes "Contains") t
  label_text (LabelFilter.does_not_contain t) = label_call (codes "DoesNotContain") t
  label_text (LabelFilter.gt t) = label_call (codes "Gt") t
  label_text (LabelFilter.ge t) = label_call (codes "Ge") t
  label_text (LabelFilter.lt t) = label_call (codes "Lt") t
  label_text (LabelFilter.le t) = label_call (codes "Le") t

  unfoldable pub pins : List (Text × Text) → Text
  pins anchor = join (codes ",") (map (λ p. p.0 ++ (codes ":" ++ p.1)) anchor)

  unfoldable pub window_text : DateWindow I → Text
  unfolding cmp_text pins
  window_text (DateWindow.relative op amount unit) =
      codes "rel:" ++ (cmp_text op ++ (codes ":" ++ (formats.signed amount ++ unit)))
  window_text (DateWindow.absolute op date) = codes "abs:" ++ (cmp_text op ++ (codes ":" ++ date))
  window_text (DateWindow.to_date anchor period) = pins anchor ++ (codes "@" ++ period)
  window_text (DateWindow.parallel anchor level offset) =
      pins anchor ++ (codes "@par:" ++ (level ++ (codes ":" ++ formats.signed offset)))
  window_text (DateWindow.last_periods anchor level n) =
      pins anchor ++ (codes "@last:" ++ (level ++ (codes ":" ++ formats.signed n)))

  unfoldable pub quoted_flag : Option Text → Option Text
  quoted_flag none = none
  quoted_flag (some t) = some (formats.quoted t)

  unfoldable pub members_text : TypedDimensionFilter I → Text
  unfolding sort_by text_or_empty some_text quoted_flag
  members_text f =
      join (codes ",") (sort_by (λ t. t) f.members)
      ++ (codes "@"
          ++ (text_or_empty f.level ++ (codes "@" ++ some_text (quoted_flag f.time_flag))))

  -- A label counts before a date window, this before a range, and this before members.
  unfoldable pub value_of :
      Option LabelFilter → Option (DateWindow I) → Option (Text × Text) → Option Text → Text → Text
  unfolding label_text window_text text_or_empty
  value_of (some l) window range level members = codes "label:" ++ label_text l
  value_of none (some w) range level members = window_text w
  value_of none none (some r) level members =
      r.0 ++ (codes ".." ++ (r.1 ++ (codes "@" ++ text_or_empty level)))
  value_of none none none level members = members

  unfoldable pub value_text : TypedDimensionFilter I → Text
  unfolding value_of members_text
  value_text f = value_of f.label f.date_window f.range f.level (members_text f)

  unfoldable pub filter_text : TypedDimensionFilter I → Text
  unfolding value_text
  filter_text f = f.dimension ++ (codes "=" ++ value_text f)

  -- Does the filter ask for anything but a time flag?
  unfoldable pub has_content : TypedDimensionFilter I → Bool
  unfolding is_present
  has_content f =
      not (is_empty f.members)
      || is_present f.range
      || is_present f.date_window
      || is_present f.label

  unfoldable pub of_parts : List Text → Text
  of_parts [] = []
  of_parts (p ∷ ps) = codes "|filters=" ++ join (codes ";") (p ∷ ps)

  unfoldable pub filter_suffix : List (TypedDimensionFilter I) → Text
  unfolding has_content sort_by filter_text of_parts
  filter_suffix filters =
      if not (any has_content filters)
      then []
      else of_parts (map filter_text (keep has_content (sort_by (λ f. f.dimension) filters)))

  unfoldable pub cell_text : TupleCell I → Text
  unfolding filter_suffix
  cell_text c = c.measure ++ filter_suffix c.filters

  unfoldable pub plan_key : QueryPlan F I → Text
  unfolding set_op_suffix level_text levels_text decimal filter_suffix cell_text
  plan_key (total measure filters) = codes "total|measure=" ++ (measure ++ filter_suffix filters)
  plan_key (group_by measure dims filters levels op) =
      codes "groupby|measure="
      ++ (measure
          ++ (codes "|dims="
              ++ (join (codes ",") dims
                  ++ (codes "|levels="
                      ++ (levels_text levels ++ (set_op_suffix op ++ filter_suffix filters))))))
  plan_key (count dimension) = codes "count|dim=" ++ dimension
  plan_key (meta_count dim level filters) =
      codes "metacount|dim="
      ++ (dim ++ (codes "|level=" ++ (level_text level ++ filter_suffix filters)))
  plan_key (meta_count_literal n) = codes "metacountliteral|" ++ decimal n
  plan_key (measures_list m) = codes "measureslist|" ++ m
  plan_key (set_members dim level measure filters) =
      codes "setmembers|dim="
      ++ (dim
          ++ (codes "|level="
              ++ (level_text level ++ (codes "|m=" ++ (measure ++ filter_suffix filters)))))
  plan_key (tuple_set cells) = codes "tupleset|" ++ join (codes ";") (map cell_text cells)
  plan_key (multi_measure measures filters) =
      codes "multi|measures=" ++ (join (codes ",") measures ++ (codes "|" ++ filter_suffix filters))
  plan_key (multi_group_by measures dims filters levels) =
      codes "multigrp|measures="
      ++ (join (codes ",") measures
          ++ (codes "|dims="
              ++ (join (codes ",") dims
                  ++ (codes "|levels="
                      ++ (levels_text levels ++ (codes "|" ++ filter_suffix filters))))))
  plan_key empty = codes "empty"
