-- ===== src/Knowledge/Examples.antt =====
-- The theorems on domain knowledge at small lists.
use border_dns.Prelude.{◌≡◌, [], ◌∷◌, if◌then◌else◌}
use border_dns.Text.{Text, strip_last}
use border_dns.Types.Route.{prior_china, prior_foreign, prior_global_cdn, prior_unknown}
use border_dns.Knowledge.{knowledge_of, classify_domain}
use border_dns.Knowledge.Sets.{listed}
use border_dns.Knowledge.Classes.{classify_domain-listed}

-- `qq.com` and `QQ.com.`
abbrev qq : Text
qq = b'q' ∷ b'q' ∷ b'.' ∷ b'c' ∷ b'o' ∷ b'm' ∷ []

abbrev upper_qq : Text
upper_qq = b'Q' ∷ b'Q' ∷ b'.' ∷ b'c' ∷ b'o' ∷ b'm' ∷ b'.' ∷ []

classify_domain-listed_example : classify_domain (knowledge_of (qq ∷ []) [] [] [] []) upper_qq ≡ (
    if listed [] (strip_last b'.' upper_qq)
    then prior_global_cdn
    else if listed (qq ∷ []) (strip_last b'.' upper_qq)
    then prior_china
    else if listed [] (strip_last b'.' upper_qq)
    then prior_foreign
    else prior_unknown)
classify_domain-listed_example = classify_domain-listed (qq ∷ []) [] [] [] [] upper_qq
