-- ===== src/Routing/Urls.antt =====
-- src/routing/urls.rs: URLs come from the configuration and the table of projects only.
use kohaku.Base.{◌++◌}
use kohaku.Base.Text.{Text, codes}
use kohaku.Config.BaseUrl.{BaseUrl, origin}

unfoldable pub main_origin : BaseUrl → Text
main_origin base_url = origin base_url

-- `main` and `token_link`.
unfoldable pub main_url : BaseUrl → Text → Text
main_url base_url path = origin base_url ++ path

unfoldable pub project_origin : Text → Text
project_origin host = codes "https://" ++ host
