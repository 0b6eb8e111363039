-- ===== src/Web/Tests.antt =====
-- The segment `a%20b`.
use go_platform_kit.Common.{◌≡◌, refl, Text, bytes}
use go_platform_kit.Web.{path_param, unhex}
use go_platform_kit.Web.Laws.{Encodes, nil, plain, percent, path_param_of_Encodes}

abbrev params : Text → Text
params key = bytes "a%20b"

space-Encodes : Encodes (bytes "a b") (params (bytes "name"))
unfolding bytes unhex
space-Encodes = plain refl (percent refl refl (plain refl nil))

path_param_of_Encodes_example : path_param params (bytes "name") ≡ bytes "a b"
path_param_of_Encodes_example =
    path_param_of_Encodes params (bytes "name") (bytes "a b") space-Encodes
