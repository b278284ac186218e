-- ===== src/Template/Proxy.antt =====
-- pkg/agent/baker.go, `getContainerServiceFuncMap`: the HTTP proxy.
use agent_baker.Prelude.{Bool, false, ◌||◌, List, [], Option, none, some, is_some}
use agent_baker.Text.{Text, text, join}
use agent_baker.Text.Lines.{indent_string}
use agent_baker.Datamodel.Bootstrapping.{HttpProxyConfig, NodeBootstrappingConfiguration}

abbrev sets_proxy : Option HttpProxyConfig → Bool
sets_proxy none = false
sets_proxy (some proxy) = is_some proxy.http_proxy || is_some proxy.https_proxy

-- `ShouldConfigureHTTPProxy`
unfoldable pub should_configure_http_proxy : NodeBootstrappingConfiguration → Bool
should_configure_http_proxy config = sets_proxy config.http_proxy_config

-- `config.HTTPProxyConfig.f`, where the first pointer is not nil
abbrev pub proxy_field {ℓ} :
    {A : Type ℓ} → (HttpProxyConfig → Option A) → Option HttpProxyConfig → Option A
proxy_field field none = none
proxy_field field (some proxy) = field proxy

-- `HasHTTPProxy`
unfoldable pub has_http_proxy : NodeBootstrappingConfiguration → Bool
has_http_proxy config = is_some (proxy_field HttpProxyConfig.http_proxy config.http_proxy_config)

-- `HasHTTPSProxy`
unfoldable pub has_https_proxy : NodeBootstrappingConfiguration → Bool
has_https_proxy config = is_some (proxy_field HttpProxyConfig.https_proxy config.http_proxy_config)

-- `HasNoProxy`
unfoldable pub has_no_proxy : NodeBootstrappingConfiguration → Bool
has_no_proxy config = is_some (proxy_field HttpProxyConfig.no_proxy config.http_proxy_config)

abbrev or_no_text : Option Text → Text
or_no_text none = []
or_no_text (some t) = t

-- `GetHTTPProxy`
unfoldable pub get_http_proxy : NodeBootstrappingConfiguration → Text
get_http_proxy config = or_no_text (proxy_field HttpProxyConfig.http_proxy config.http_proxy_config)

-- `GetHTTPSProxy`
unfoldable pub get_https_proxy : NodeBootstrappingConfiguration → Text
get_https_proxy config =
    or_no_text (proxy_field HttpProxyConfig.https_proxy config.http_proxy_config)

abbrev joined : Option (List Text) → Text
joined none = []
joined (some hosts) = join hosts (text ",")

-- `GetNoProxy`
unfoldable pub get_no_proxy : NodeBootstrappingConfiguration → Text
get_no_proxy config = joined (proxy_field HttpProxyConfig.no_proxy config.http_proxy_config)

-- `ShouldConfigureHTTPProxyCA`
unfoldable pub should_configure_http_proxy_ca : NodeBootstrappingConfiguration → Bool
should_configure_http_proxy_ca config =
    is_some (proxy_field HttpProxyConfig.trusted_ca config.http_proxy_config)

abbrev indented : (Text → Text) → Option Text → Text
indented decode none = []
indented decode (some trusted_ca) = indent_string (decode trusted_ca) 4

-- `GetHTTPProxyCA`; `decode` is the text that `base64.StdEncoding.DecodeString` gives, with what it
-- has read before an error, which the code drops.
unfoldable pub get_http_proxy_ca : (Text → Text) → NodeBootstrappingConfiguration → Text
get_http_proxy_ca decode config =
    indented decode (proxy_field HttpProxyConfig.trusted_ca config.http_proxy_config)
