-- ===== src/Seri/RoundTrip.antt =====
-- skynet/lualib-src/lua-seri.c: what is packed is unpacked again.
