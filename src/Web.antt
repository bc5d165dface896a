-- ===== src/Web.antt =====
-- What the server takes from outside the repository: the URL parser, ipaddr.js, and the shapes of
-- what DNS, sockets and peer certificates hand back. Parameters of the model.
use pulse_keeper.Prelude.{Bool, List, Option, Text, ℕ}
use pulse_keeper.Errors.{Thrown}

-- The parts of a parsed URL that the source reads.
pub record Url : Type 0 where
  pub protocol : Text
  pub username : Text
  pub password : Text
  pub hostname : Text
  pub href : Text

pub record WebLib : Type 1 where
  -- `new URL(s)`, and `new URL(location, base).toString()`; none where they throw.
  pub parse_url : Text → Option Url
  pub resolve_url : Text → Url → Option Text
  -- ipaddr.js: `parse` (none where it throws), `isValid`, `kind() === 'ipv6'`,
  -- `isIPv4MappedAddress`, `toIPv4Address`, `toString` and `range`.
  pub Ip : Type 0
  pub parse_ip : Text → Option Ip
  pub is_valid_ip : Text → Bool
  pub is_ipv6 : Ip → Bool
  pub is_ipv4_mapped : Ip → Bool
  pub to_ipv4 : Ip → Ip
  pub ip_text : Ip → Text
  pub ip_range : Ip → Text
  -- Whether Node's `net.isIP` takes a host for an address: then a socket connects to it as it is, and
  -- calls no lookup.
  pub is_ip : Text → Bool
  -- `new Date(s).getTime()`; none where it is NaN.
  pub parse_date : Text → Option ℕ

-- A certificate attribute: a text, or a list of them where it is repeated.
pub data Attribute : Type 0 where
  one : Text → Attribute
  many : List Text → Attribute

-- What `getPeerCertificate()` returns.
pub record PeerCertificate : Type 0 where
  pub valid_to : Text
  pub valid_from : Text
  pub issuer_o : Option Attribute
  pub issuer_cn : Option Attribute
  pub subject_cn : Option Attribute

-- The socket's side of it: no TLS socket or no certificate, a call that throws, or a certificate.
pub data Peer : Type 0 where
  no_certificate : Peer
  unreadable : Peer
  certificate : PeerCertificate → Peer

-- What `dns.lookup` hands to its callback: an error, or the addresses that it found.
pub data DnsReply : Type 0 where
  dns_failed : Thrown → DnsReply
  dns_found : List Text → DnsReply

-- What the request emits. Elapsed time is in nanoseconds.
pub data SocketEvent : Type 0 where
  response : ℕ → Option Text → ℕ → Peer → SocketEvent
  socket_timeout : SocketEvent
  socket_error : Thrown → SocketEvent

-- A value of `JSON.stringify`: an object is a row of entries, an array a row of elements.
mutual
  pub data Json : Type 0 where
    json_text : Text → Json
    json_number : ℕ → Json
    json_flag : Bool → Json
    json_object : Fields → Json
    json_array : Items → Json

  pub data Fields : Type 0 where
    no_fields : Fields
    entry : Text → Json → Fields → Fields

  pub data Items : Type 0 where
    no_items : Items
    element : Json → Items → Items

-- What a POST request emits: the response with its status and content type (empty where there is
-- none), a chunk of its body, the end of its body; and what comes at last at the latest, a timeout
-- or an error.
pub data PostEvent : Type 0 where
  post_response : ℕ → Text → PostEvent
  post_chunk : Text → PostEvent
  post_end : PostEvent

pub data PostClosing : Type 0 where
  post_timeout : PostClosing
  post_error : Thrown → PostClosing

-- What `sendMail` is given. Of the HTML the texts that are put into it, in order; the markup around
-- them is left out.
pub record Mail : Type 0 where
  pub sender : Text
  pub recipient : Text
  pub subject : Text
  pub plain : Text
  pub html_texts : List Text

-- What `jwt.sign` puts into a token.
pub record TokenClaims : Type 0 where
  pub subject : ℕ
  pub email : Text
  pub algorithm : Text
  pub expires_in : Text
  pub issuer : Text
  pub audience : Text

-- What `jwt.verify` is told to accept.
pub record VerifyOptions : Type 0 where
  pub algorithms : List Text
  pub issuer : Text
  pub audience : Text

-- What `jwt.verify` does: a payload with its subject, if it has one, and its email; a payload that
-- is a text; or an error, of one of its two classes or another.
pub data VerifyReply : Type 0 where
  verified : Option ℕ → Text → VerifyReply
  text_payload : VerifyReply
  token_expired token_invalid : VerifyReply
  verify_failed : Thrown → VerifyReply

-- bcryptjs and jsonwebtoken. `hash` is given the moment, which stands for its random salt; `sign`
-- and `verify` are given the secret and the time.
pub record AuthLib : Type 0 where
  pub hash : ℕ → Text → Text
  pub compare : Text → Text → Bool
  pub sign : Text → ℕ → TokenClaims → Text
  -- `jwt.decode(token)?.exp`, in seconds.
  pub expiry_of : Text → Option ℕ
  pub verify : Text → ℕ → VerifyOptions → Text → VerifyReply
