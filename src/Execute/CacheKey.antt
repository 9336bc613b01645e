-- ===== src/Execute/CacheKey.antt =====
-- src/execute/cache.rs: the key of a result in the cache. How a list of roles is written for
-- debugging is an argument. The words of the texts are the source's.
pub mod Shared
use mallard_cube.Prelude.{sort_by, ℕ, Bool, List, ◌++◌, any, keep, Text, codes, text_eq}
use mallard_cube.Access.Config.{RoleConfig}
use mallard_cube.Access.Users.{UserContext}
use mallard_cube.Engine.Normalize.{bool_text, decimal}
use mallard_cube.Mdx.Parser.{join}

-- Is the role one of the user's?
unfoldable pub is_matched : List Text → RoleConfig → Bool
is_matched names role = any (λ name. text_eq name role.name) names

unfoldable pub matched_roles : List Text → List RoleConfig → List RoleConfig
unfolding is_matched sort_by
matched_roles names roles_config = sort_by (λ r. r.name) (keep (is_matched names) roles_config)

unfoldable pub sorted_text : List Text → Text
unfolding sort_by
sorted_text ts = join (codes ",") (sort_by (λ t. t) ts)

unfoldable pub cache_key_at :
    (List RoleConfig → Text) → Text → Text → Text → UserContext → List RoleConfig → ℕ → Text
unfolding matched_roles sorted_text bool_text decimal
cache_key_at debug plan_key catalog cube user roles_config epoch =
    catalog
    ++ (codes "|"
        ++ (cube
            ++ (codes "|"
                ++ (plan_key
                    ++ (codes "|user="
                        ++ (user.user_id
                            ++ (codes "|admin="
                                ++ (bool_text user.is_administrator
                                    ++ (codes "|roles="
                                        ++ (sorted_text user.roles
                                            ++ (codes "|groups="
                                                ++ (sorted_text user.groups
                                                    ++ (codes "|data="
                                                        ++ (decimal epoch
                                                            ++ (codes "|cfg="
                                                            ++ debug (
                                                            matched_roles user.roles
                                                            roles_config))))))))))))))))
