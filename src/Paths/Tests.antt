-- ===== src/Paths/Tests.antt =====
-- Rust's answers on some paths.
use legal_genie_agent.Prelude.{◌≡◌, refl, none, some, [], ◌∷◌}
use legal_genie_agent.Paths.{
  Component, root_dir, cur_dir, parent_dir, normal, components, extension,
}

absolute : components "/files//a.pdf" ≡ root_dir ∷ normal "files" ∷ normal "a.pdf" ∷ []
unfolding components legal_genie_agent.Paths.segments legal_genie_agent.Paths.later_components
absolute = refl

escaping : components "./../a/./b/" ≡ cur_dir ∷ parent_dir ∷ normal "a" ∷ normal "b" ∷ []
unfolding components legal_genie_agent.Paths.segments legal_genie_agent.Paths.later_components
escaping = refl

nothing : components "" ≡ []
unfolding components legal_genie_agent.Paths.segments legal_genie_agent.Paths.later_components
nothing = refl

last_of_two : extension "k1/scan.tar.PDF" ≡ some "PDF"
unfolding extension legal_genie_agent.Paths.file_name legal_genie_agent.Paths.last_name components
    legal_genie_agent.Paths.segments legal_genie_agent.Paths.later_components
    legal_genie_agent.Paths.last_dot
last_of_two = refl

hidden : extension ".pdf" ≡ none
unfolding extension legal_genie_agent.Paths.file_name legal_genie_agent.Paths.last_name components
    legal_genie_agent.Paths.segments legal_genie_agent.Paths.later_components
    legal_genie_agent.Paths.last_dot
hidden = refl

no_dot : extension "a.b/scan" ≡ none
unfolding extension legal_genie_agent.Paths.file_name legal_genie_agent.Paths.last_name components
    legal_genie_agent.Paths.segments legal_genie_agent.Paths.later_components
    legal_genie_agent.Paths.last_dot
no_dot = refl

dot_at_end : extension "scan." ≡ some ""
unfolding extension legal_genie_agent.Paths.file_name legal_genie_agent.Paths.last_name components
    legal_genie_agent.Paths.segments legal_genie_agent.Paths.later_components
    legal_genie_agent.Paths.last_dot
dot_at_end = refl
