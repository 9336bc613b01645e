-- ===== src/Execute/CacheKey/Shared.antt =====
-- src/execute/cache.rs and src/engine/normalize.rs: requests that share an entry of the cache.
use mallard_cube.Prelude.{
  any-Reordered, sort_by-Reordered, Reordered, ℕ, ◌≡◌, refl, ap, fun_ext, List, keep, Text, codes,
  text_eq,
}
use mallard_cube.Access.Config.{RoleConfig}
use mallard_cube.Access.Users.{UserContext}
use mallard_cube.Engine.Plan.{QueryPlan}
use mallard_cube.Engine.Normalize.{Formats, plan_key}
use mallard_cube.Engine.Normalize.Alike.{SamePlan, plan_key-same}
use mallard_cube.Mdx.Parser.{join}
use mallard_cube.Execute.CacheKey.{sort_by, is_matched, matched_roles, sorted_text, cache_key_at}

sorted_text-Reordered :
    {ts us : List Text} → Reordered (λ t. t) ts us → sorted_text ts ≡ sorted_text us
unfolding sorted_text
sorted_text-Reordered r = ap (join (codes ",")) (sort_by-Reordered (λ t. t) r)

matched_roles-Reordered :
    {ts us : List Text} (roles_config : List RoleConfig)
    → Reordered (λ t. t) ts us
    → matched_roles ts roles_config ≡ matched_roles us roles_config
unfolding matched_roles is_matched
matched_roles-Reordered roles_config r =
    ap (λ p. sort_by (λ (c : RoleConfig). c.name) (keep p roles_config))
      (fun_ext (λ (c : RoleConfig). any-Reordered (λ t. t) (λ t. text_eq t c.name) r))

module _ {F I : Type 0} (formats : Formats F I) (debug : List RoleConfig → Text) where
  -- Two plans that differ only in the order of the filters on different dimensions, and in the
  -- order of the members of a filter, have one key in the cache, for a user and for one who differs
  -- in the order of roles and groups only.
  pub cache_key_at-same :
      {p q : QueryPlan F I} (catalog cube : Text) (user : UserContext) (roles groups : List Text)
      (roles_config : List RoleConfig) (epoch : ℕ)
      → SamePlan p q
      → Reordered (λ t. t) user.roles roles
      → Reordered (λ t. t) user.groups groups
      → cache_key_at debug (plan_key formats p) catalog cube user roles_config epoch
        ≡ cache_key_at debug
            (plan_key formats q)
            catalog
            cube
            (record user { roles = roles; groups = groups })
            roles_config
            epoch
  unfolding cache_key_at
  cache_key_at-same catalog cube user roles groups roles_config epoch same r g =
      rw
        (
          plan_key-same formats same,
          sorted_text-Reordered r,
          sorted_text-Reordered g,
          matched_roles-Reordered roles_config r,
        )
        refl
