-- ===== src/SiteLogicRequest.antt =====
-- src/sitelogicrequest.h and src/sitelogicrequest.cpp: a request to a site's logic. The constructors
-- that take no number leave `numdata` as they find it.
use cbftp.Common.{ℕ, String, Pointer, none, ℤ, negsuc}

pub record SiteLogicRequest : Type 0 where
  pub requestid : ℕ
  pub connid : ℤ
  pub requesttype : ℕ
  pub request_data : String
  pub data2 : String
  pub numdata : ℤ
  pub cb : Pointer
  pub ptrdata : Pointer

-- The constructors' common part: no connection yet, and no data.
blank : Pointer → ℕ → ℕ → ℤ → SiteLogicRequest
blank cb id type numdata = record {
  requestid = id;
  connid = negsuc 0;
  requesttype = type;
  request_data = "";
  data2 = "";
  numdata = numdata;
  cb = cb;
  ptrdata = none;
}

pub with_ptr : ℤ → Pointer → ℕ → ℕ → Pointer → SiteLogicRequest
with_ptr junk cb id type ptr = record (blank cb id type junk) { ptrdata = ptr }

pub with_num : Pointer → ℕ → ℕ → ℤ → SiteLogicRequest
with_num cb id type numdata = blank cb id type numdata

pub with_data : ℤ → Pointer → ℕ → ℕ → String → SiteLogicRequest
with_data junk cb id type s = record (blank cb id type junk) { request_data = s }

pub with_data_num : Pointer → ℕ → ℕ → String → ℤ → SiteLogicRequest
with_data_num cb id type s numdata = record (blank cb id type numdata) { request_data = s }

pub with_two : ℤ → Pointer → ℕ → ℕ → String → String → SiteLogicRequest
with_two junk cb id type s t = record (blank cb id type junk) { request_data = s; data2 = t }

pub with_two_num : Pointer → ℕ → ℕ → String → String → ℤ → SiteLogicRequest
with_two_num cb id type s t numdata = record (blank cb id type numdata) {
  request_data = s;
  data2 = t;
}

pub set_conn_id : ℤ → SiteLogicRequest → SiteLogicRequest
set_conn_id id r = record r { connid = id }
