-- ===== src/Direct/Value/Normal.antt =====
-- About `normalize_value` of src/direct.c.
use susanin.Prelude.{◌<◌, ◌≡◌, false, some, arith, length, All}
use susanin.Prelude.Text.{Text}
use susanin.Prelude.Decimal.{is_empty}
use susanin.Direct.Value.{DirectKind, ip, domain, normalize_value}
use susanin.Direct.Value.Plain.{IsPlain}
use susanin.Direct.Value.Ip.{normalize_ip-IsCidr, normalize_ip_normal, IsCidr-IsPlain, IsCidr-given}
use susanin.Direct.Value.Domain.{normalize_domain-IsName, normalize_domain_normal, IsName-IsPlain}

-- A value as the database stores it.
pub record IsNormal (kind : DirectKind) (value : Text) : Type 0 where
  pub fixed : normalize_value kind value ≡ some value
  pub plain : All IsPlain value
  pub short : length value < 254
  pub given : is_empty value ≡ false

-- What `normalize_value` accepts is in normal form: it is read as itself from then on.
pub normalize_value-IsNormal :
    (kind : DirectKind) (s value : Text) → normalize_value kind s ≡ some value → IsNormal kind value
unfolding normalize_value
normalize_value-IsNormal ip s value h =
    let c = normalize_ip-IsCidr s value h in
    record {
      fixed = normalize_ip_normal value c;
      plain = (IsCidr-IsPlain value c).0;
      short = omega (arith, IsCidr-IsPlain value c);
      given = IsCidr-given value c;
    }
normalize_value-IsNormal domain s value h =
    let n = normalize_domain-IsName s value h in
    record {
      fixed = normalize_domain_normal value n;
      plain = IsName-IsPlain value n;
      short = n.short;
      given = n.given;
    }
