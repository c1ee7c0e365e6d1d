-- ===== src/StackRecognize/Rules/ToJdk.antt =====
-- dongtai_common/utils/stack_recognize.py: the package prefixes of frameworks and libraries, up to jdk.
use dong_tai_server.Prelude.{List, [], ◌∷◌}
use dong_tai_server.Prelude.Text.{Text, codes}

unfoldable pub rules_to_jdk : List Text
rules_to_jdk =
    codes "aj."
    ∷ codes "akka."
    ∷ codes "android."
    ∷ codes "antlr."
    ∷ codes "apple."
    ∷ codes "aQute."
    ∷ codes "brave."
    ∷ codes "bsh."
    ∷ codes "ch.qos."
    ∷ codes "co.paralleluniverse."
    ∷ codes "com.acumenat."
    ∷ codes "com.alibaba.arthas."
    ∷ codes "com.alibaba.cloud."
    ∷ codes "com.alibaba.cola."
    ∷ codes "com.alibaba.com.caucho."
    ∷ codes "com.alibaba.crr."
    ∷ codes "com.alibaba.csp."
    ∷ codes "com.alibaba.datax."
    ∷ codes "com.alibaba.druid."
    ∷ codes "com.alibaba.dubbo."
    ∷ codes "com.alibaba.fastjson."
    ∷ codes "com.alibaba.fastjson2."
    ∷ codes "com.alibaba.google."
    ∷ codes "com.alibaba.jvm."
    ∷ codes "com.alibaba.metrics."
    ∷ codes "com.alibaba.nacos."
    ∷ codes "com.alibaba.otter."
    ∷ codes "com.alibaba.rocketmq."
    ∷ codes "com.alibaba.rsqldb."
    ∷ codes "com.alibaba.spring."
    ∷ codes "com.alibaba.ttl3."
    ∷ codes "com.alipay.common."
    ∷ codes "com.alipay.disruptor."
    ∷ codes "com.alipay.hessian."
    ∷ codes "com.alipay.lookout."
    ∷ codes "com.alipay.remoting."
    ∷ codes "com.alipay.sofa."
    ∷ codes "com.aliyun.openservices."
    ∷ codes "com.arjuna."
    ∷ codes "com.asn1c."
    ∷ codes "com.atomikos."
    ∷ codes "com.baidu.bjf."
    ∷ codes "com.baidu.brpc."
    ∷ codes "com.baidu.jprotobuf."
    ∷ codes "com.baomidou."
    ∷ codes "com.bea."
    ∷ codes "com.beust."
    ∷ codes "com.carrotsearch."
    ∷ codes "com.caucho."
    ∷ codes "com.certicom."
    ∷ codes "com.codahale."
    ∷ codes "com.corundumstudio."
    ∷ codes "com.ctc."
    ∷ codes "com.datastax."
    ∷ codes "com.ddtek."
    ∷ codes "com.dyuproject."
    ∷ codes "com.esotericsoftware."
    ∷ codes "com.esri."
    ∷ codes "com.fasterxml."
    ∷ codes "com.flipkart."
    ∷ codes "com.github."
    ∷ codes "com.google."
    ∷ codes "com.googlecode."
    ∷ codes "com.headius."
    ∷ codes "com.ibm."
    ∷ codes "com.intellij."
    ∷ codes "com.jayway."
    ∷ codes "com.jcraft."
    ∷ codes "com.kenai."
    ∷ codes "com.linar."
    ∷ codes "com.linecorp."
    ∷ codes "com.mchange."
    ∷ codes "com.merant."
    ∷ codes "com.microsoft."
    ∷ codes "com.mkyong."
    ∷ codes "com.mongodb."
    ∷ codes "com.mysql."
    ∷ codes "com.navercorp."
    ∷ codes "com.netflix."
    ∷ codes "com.networknt."
    ∷ codes "com.nimbusds."
    ∷ codes "com.nulabinc."
    ∷ codes "com.octetstring."
    ∷ codes "com.octo."
    ∷ codes "com.opensymphony."
    ∷ codes "com.oracle."
    ∷ codes "com.querydsl."
    ∷ codes "com.rabbitmq."
    ∷ codes "com.rsa."
    ∷ codes "com.screener."
    ∷ codes "com.secnium."
    ∷ codes "com.solarmetric."
    ∷ codes "com.squareup."
    ∷ codes "com.stoyanr."
    ∷ codes "com.sun."
    ∷ codes "com.tdunning."
    ∷ codes "com.terracotta."
    ∷ codes "com.thetransactioncompany."
    ∷ codes "com.thoughtworks."
    ∷ codes "com.twitter."
    ∷ codes "com.typesafe."
    ∷ codes "com.vividsolutions."
    ∷ codes "com.weibo.api.motan."
    ∷ codes "com.xxl."
    ∷ codes "com.yahoo."
    ∷ codes "com.zaxxer."
    ∷ codes "com.zeroturnaround."
    ∷ codes "commonj."
    ∷ codes "dagger."
    ∷ codes "de.javakaffee."
    ∷ codes "edu.emory."
    ∷ codes "feign."
    ∷ codes "freemarker."
    ∷ codes "gnu."
    ∷ codes "google."
    ∷ codes "graphql."
    ∷ codes "groovy."
    ∷ codes "io.dongtai."
    ∷ codes "io.dropwizard."
    ∷ codes "io.github."
    ∷ codes "io.grpc."
    ∷ codes "io.jsonwebtoken."
    ∷ codes "io.lettuce."
    ∷ codes "io.micrometer."
    ∷ codes "io.netty."
    ∷ codes "io.opencensus."
    ∷ codes "io.opentelemetry."
    ∷ codes "io.opentracing."
    ∷ codes "io.perfmark."
    ∷ codes "io.reactivex."
    ∷ codes "io.restassured."
    ∷ codes "io.shardingjdbc."
    ∷ codes "io.shardingsphere."
    ∷ codes "io.swagger."
    ∷ codes "io.undertow."
    ∷ codes "io.vavr."
    ∷ codes "io.vertx."
    ∷ codes "jain."
    ∷ codes "jakarta."
    ∷ codes "java."
    ∷ codes "javafx."
    ∷ codes "javassist."
    ∷ codes "javax."
    ∷ codes "javelin."
    ∷ codes "jdk."
    ∷ []
