-- ===== src/Tests/DomainExamples.antt =====
-- A domain that leads to the server, and one of the panel.
use fake_ui.Prelude.{
  String, true, Option, none, some, List, [], ◌∷◌, All, map, ◌≡◌, refl, if◌then◌else◌, str_eq,
}
use fake_ui.Prelude.Result.{is_ok}
use fake_ui.Domains.{
  Taken, clean_domain, distinct, split_domains, validate_tunnel_domain, domain_options,
}
use fake_ui.Domains.Accepted.{
  acceptable, IsOffered, Splits, validate_tunnel_domain-acceptable, domain_options-IsOffered,
}

abbrev answers : String → Option (List String)
answers domain = if str_eq domain "home.example.org" then some ("10.0.0.1" ∷ []) else none

abbrev taken : Taken
taken = record {
  panel_domains = "panel.example.org" ∷ [];
  node_domains = [];
  tunnels = (record { id = "office"; public_domain = "office.example.org" }) ∷ [];
  nodes = [];
  exclude_tunnel_id = "";
}

abbrev server : List String
server = "10.0.0.1" ∷ []

validate_tunnel_domain-acceptable_example :
    is_ok (validate_tunnel_domain answers "Home.example.org." server taken)
    ≡ acceptable answers (clean_domain "Home.example.org.") server taken
validate_tunnel_domain-acceptable_example =
    validate_tunnel_domain-acceptable answers "Home.example.org." server taken

accepts_test : is_ok (validate_tunnel_domain answers "Home.example.org." server taken) ≡ true
unfolding validate_tunnel_domain
accepts_test = refl

split_test : split_domains "a.org, b.org;;A.org. 10.0.0.1" ≡ "a.org" ∷ "b.org" ∷ []
unfolding split_domains
split_test = refl

abbrev candidates : List String
candidates = "home.example.org" ∷ "panel.example.org" ∷ "Home.example.org" ∷ []

domain_options-IsOffered_example :
    All
      (IsOffered answers server taken (distinct (map clean_domain candidates)))
      (domain_options answers candidates server taken).available
    × Splits answers server taken
        (distinct (map clean_domain candidates))
        (domain_options answers candidates server taken)
domain_options-IsOffered_example = domain_options-IsOffered answers candidates server taken
