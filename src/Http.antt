-- ===== src/Http.antt =====
-- What the handlers read of an `http.Request`: `r.Header.Get`, `r.URL.Query().Get`, the path value of
-- the route ("key" or "id"), the method, the remote address and the content length.
use orbit_depot_prototype.Base.Int.{ℤ}
use orbit_depot_prototype.Base.Text.{Text}

pub record Request : Type 0 where
  pub method : Text
  pub header : Text → Text
  pub query : Text → Text
  pub path_value : Text
  pub remote_addr : Text
  pub content_length : ℤ
